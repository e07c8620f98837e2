-- ===== src/Timer/Tests.antt =====
-- Concrete timers: runs of the operations, and the theorems at inputs that meet their hypotheses.
use custom_net_framework.Prelude.{
  ℕ, ◌≡◌, ◌≢◌, ◌↔◌, ◌⊎◌, refl, true, false, ◌||◌, Option, none, some, List, [], ◌∷◌, arith, ◌==◌,
  if◌then◌else◌, contains, has, is_empty, u64, ◌+◌,
}
use custom_net_framework.Timer.Set.{
  Callback, plain, on_timer, less, insert, invoke, find, lower_bound, erase_at, advance,
}
use custom_net_framework.Timer.Set.Order.{less_strict_total}
use custom_net_framework.Timer.{
  TimerManager, init, mark_timer, add_timer, insert_timer, cancel, reset, get_next_timer,
  list_expired_locked, list_expired_cb, detect_clock_rollover,
}
use custom_net_framework.Timer.Invariant.{Inv}
use custom_net_framework.Timer.Expire.{Expires, set_back, list_expired_lem}
use custom_net_framework.Timer.Steps.{
  Reach, here, next, adds, Reach-Inv, cancel_lem, list_expired_race,
}
use custom_net_framework.Timer.Wake.{
  InRange, IsNextDelay, get_next_timer_lem, insert_timer_notifies, reset_keeps_phase,
}

-- A timer at address 7 for time 1050, and a recurring one at address 5 for time 1021.
abbrev one : TimerManager
one = (add_timer (init 1000) 1000 7 50 (some (plain 1)) false).0

abbrev two : TimerManager
two = (add_timer one 1001 5 20 (some (plain 2)) true).0

one-Reach : Reach 1000 one
unfolding init
one-Reach = next here (adds 1000 7 50 (plain 1) false (omega arith) refl)

two-Reach : Reach 1000 two
unfolding init add_timer insert
two-Reach = next one-Reach (adds 1001 5 20 (plain 2) true (omega arith) refl)

two_order : two.timers ≡ 5 ∷ 7 ∷ []
unfolding init add_timer mark_timer insert less
two_order = refl

-- At 1030 only the recurring timer is due; it is back in the set, for 1050.
fire : Option (List (Option Callback) × List ℕ × ℕ)
unfolding list_expired_locked
fire = elim (list_expired_locked two 1030 9) [
  | none ↦ none
  | some (m, cbs) ↦ some (cbs, m.timers, (m.heap 5).next)
]

fire_lem : fire ≡ some (some (plain 2) ∷ [], 5 ∷ 7 ∷ [], 1050)
unfolding fire init add_timer mark_timer insert less lower_bound advance
fire_lem = refl

-- A condition timer runs its callback only while the condition's object is alive.
condition_dead : invoke (λ w. w == 3) (on_timer 4 8) ≡ none
unfolding invoke
condition_dead = refl

less_strict_total_example :
    ((p : ℕ) → less two.heap p p ≡ false)
    × ((p q r : ℕ) → less two.heap p q ≡ true → less two.heap q r ≡ true → less two.heap p r ≡ true)
    × ((p q : ℕ) → p ≢ q → (less two.heap p q ≡ true) ⊎ (less two.heap q p ≡ true))
less_strict_total_example = less_strict_total two.heap

Reach-Inv_example : Inv two
Reach-Inv_example = Reach-Inv two-Reach

cancel_lem_example :
    (m' : TimerManager) × (cancel two 7 ≡ some (m', has (two.heap 7).cb))
    × ((m'.heap 7).cb ≡ none)
    × ((q : ℕ) → contains q m'.timers ≡ (if 7 == q then false else contains q two.timers))
cancel_lem_example = cancel_lem 7 two-Reach

two_lacks : contains 9 two.timers ≡ false
unfolding init add_timer mark_timer insert less
two_lacks = refl

list_expired_lem_example :
    (m' : TimerManager) × (cbs : List (Option Callback)) × (list_expired_locked two 1030 9
      ≡ some (m', cbs))
    × Expires two 1030 9 (set_back two 1030) m' cbs
unfolding init add_timer mark_timer insert less
list_expired_lem_example =
    list_expired_lem two 1030 9 (Reach-Inv two-Reach) (omega arith) two_lacks (λ e. cc)

-- Another thread cancels the only timer between the two locks.
abbrev emptied : TimerManager → TimerManager
emptied m = elim (cancel m 7) [ none ↦ m | some (m', b) ↦ m' ]

list_expired_race_example : (list_expired_cb emptied one 1060 9 ≡ none) ↔ (
    (is_empty one.timers ≡ false)
    × ((emptied one).timers ≡ [])
    × (set_back (emptied one) 1060 ≡ false))
list_expired_race_example = list_expired_race emptied one 1060 9

-- The race is real: the conditions hold there.
race_happens :
    (is_empty one.timers ≡ false)
    × ((emptied one).timers ≡ [])
    × (set_back (emptied one) 1060 ≡ false)
unfolding init add_timer mark_timer insert less cancel find lower_bound erase_at
    detect_clock_rollover
race_happens = (refl, refl, refl)

two_range : InRange two
unfolding init add_timer mark_timer insert_timer
two_range p = ground arith

get_next_timer_lem_example : IsNextDelay two 1010 (get_next_timer two 1010).1
get_next_timer_lem_example =
    get_next_timer_lem two 1010 (Reach-Inv two-Reach) two_range (omega arith)

insert_timer_notifies_example :
    let r = insert_timer one 3 in
    ((r.1 ≡ true) ↔ (
      ((q : ℕ) → contains q one.timers ≡ true → less one.heap 3 q ≡ true) × (one.tickled ≡ false)))
    × (r.0.tickled ≡ (one.tickled || r.1))
unfolding init add_timer mark_timer insert less
insert_timer_notifies_example = insert_timer_notifies one 3 (Reach-Inv one-Reach).sorted refl

reset_keeps_phase_example :
    ((reset two 1005 5 100 false).2 ≡ true)
    × (((reset two 1005 5 100 false).0.heap 5).ms ≡ 100)
    × (u64 (((reset two 1005 5 100 false).0.heap 5).next + (two.heap 5).ms)
        ≡ u64 ((two.heap 5).next + 100))
    × ((q : ℕ) → (5 == q) ≡ false → (reset two 1005 5 100 false).0.heap q ≡ two.heap q)
    × ((q : ℕ) → contains q (reset two 1005 5 100 false).0.timers ≡ contains q two.timers)
unfolding init add_timer mark_timer insert
reset_keeps_phase_example =
    reset_keeps_phase two 5 1005 100 (Reach-Inv two-Reach) refl (omega arith)
