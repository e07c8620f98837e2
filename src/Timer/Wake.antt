-- ===== src/Timer/Wake.antt =====
-- When the IOManager's idle loop has to wake up: `getNextTimer` and the notification at the front.
use custom_net_framework.Prelude.{
  ℕ, ◌+◌, ◌-◌, ◌^◌, ◌≤◌, ◌<◌, ◌≡◌, ◌≢◌, ◌↔◌, ◌⊎◌, refl, inl, inr, true, false, ◌||◌, List, [], ◌∷◌,
  arith, ◌==◌, contains, Bool-cases, update, has, ap, sym, ◌∙◌, subst, u64, max_u64,
}
use custom_net_framework.Timer.Set.{less, Heap}
use custom_net_framework.Timer.Set.Order.{IsSorted, Below, less-times}
use custom_net_framework.Timer.Set.Lookup.{remove, Below-less, lower_bound_front}
use custom_net_framework.Timer.{TimerManager, insert_timer, get_next_timer, reset, reset_start}
use custom_net_framework.Timer.Invariant.{Inv, reset_armed, contains-others}
use custom_net_framework.Timer.Set.Insert.{contains-insert}

-- Timers are uint64_t milliseconds.
abbrev pub InRange : TimerManager → Type 0
InRange m = (p : ℕ) → (m.heap p).next < 2 ^ 64

-- What `getNextTimer` is to return: no timer is due earlier than after `d`, and one is due then.
abbrev pub IsNextDelay : TimerManager → ℕ → ℕ → Type 0
IsNextDelay m now d =
    ((m.timers ≡ []) × (d ≡ max_u64))
    ⊎ ((p : ℕ) × (contains p m.timers ≡ true)
        × (d ≡ (m.heap p).next - now)
        × ((q : ℕ) → contains q m.timers ≡ true → d ≤ (m.heap q).next - now))

first_next-le :
    (h : Heap) (p : ℕ) (s : List ℕ) (q : ℕ)
    → p ≢ 0
    → Below h p s
    → contains q (p ∷ s) ≡ true
    → (h p).next ≤ (h q).next
first_next-le h p s q nz b c = elim (Bool-cases (q == p)) [
  | inl e ↦ ground arith
  | inr ne ↦ ground (arith, less-times h p q, Below-less h q p s b)
]

-- With the clock and all times in range, `getNextTimer` returns the largest uint64_t when there is no
-- timer, and else the time until the earliest one, 0 if it is overdue.
pub get_next_timer_lem :
    (m : TimerManager) (now : ℕ)
    → Inv m
    → InRange m
    → now < 2 ^ 64
    → IsNextDelay m now (get_next_timer m now).1
unfolding get_next_timer
get_next_timer_lem m now v r lt = split m.timers refl
  where
    split : (s : List ℕ) → m.timers ≡ s → IsNextDelay m now (get_next_timer m now).1
    split [] e = inl (e, ground arith)
    split (p ∷ s) e =
        let o : IsSorted m.heap (p ∷ s) = subst (IsSorted m.heap) e v.sorted in
        let z : contains 0 (p ∷ s) ≡ false = ap (contains 0) (sym e) ∙ v.nonnull in
        inr (
          p,
          ap (contains p) e ∙ ground arith,
          ground (arith, r p),
          λ q c. ground (
            arith,
            r p,
            first_next-le m.heap p s q (ground arith) o.0 (ap (contains q) (sym e) ∙ c),
          ),
        )

-- Inserting a timer `p` into a sorted set that lacks it notifies the IOManager exactly when `p`
-- comes first in the set and no notification is pending since the last `getNextTimer`; a
-- notification is pending afterwards just if one was before or one is sent now.
pub insert_timer_notifies :
    (m : TimerManager) (p : ℕ)
    → IsSorted m.heap m.timers
    → contains p m.timers ≡ false
    → let r = insert_timer m p in
      ((r.1 ≡ true)
        ↔ (((q : ℕ) → contains q m.timers ≡ true → less m.heap p q ≡ true) × (m.tickled ≡ false)))
      × (r.0.tickled ≡ (m.tickled || r.1))
unfolding insert_timer
insert_timer_notifies m p o fresh =
    let f = lower_bound_front m.heap p m.timers o fresh in
    ((λ e. (f.0 (ground arith), ground arith), λ h. ground (arith, f.1 h.0)), ground arith)

-- On a state that keeps the invariant, `reset(ms, false)` to another period of a timer that has a
-- callback succeeds, and keeps the moment from which the timer counts: the new time minus the new
-- period is the old time minus the old period, modulo 2^64. It leaves the other timers alone, in
-- the heap and in the set.
pub reset_keeps_phase :
    (m : TimerManager) (p now ms : ℕ)
    → Inv m
    → has (m.heap p).cb ≡ true
    → ms ≢ (m.heap p).ms
    → let r = reset m now p ms false in
      (r.2 ≡ true)
      × ((r.0.heap p).ms ≡ ms)
      × (u64 ((r.0.heap p).next + (m.heap p).ms) ≡ u64 ((m.heap p).next + ms))
      × ((q : ℕ) → (p == q) ≡ false → r.0.heap q ≡ m.heap q)
      × ((q : ℕ) → contains q r.0.timers ≡ contains q m.timers)
unfolding insert_timer reset_start
reset_keeps_phase m p now ms v y ne =
    let e = reset_armed m p v now ms false y (ground arith) in
    let h : Heap =
      update m.heap p
        (record (m.heap p) { ms = ms; next = u64 (reset_start (m.heap p) now false + ms) }) in
    rw e (
      refl,
      ground arith,
      ground arith,
      λ q d. ground arith,
      λ q.
          ground
            (arith, contains-insert h p q (remove p m.timers), contains-others m p v q, v.armed q),
    )
