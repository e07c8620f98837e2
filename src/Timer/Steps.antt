-- ===== src/Timer/Steps.antt =====
-- The TimerManager under any sequence of calls, by any threads: each call runs under the write lock
-- and is one step, but for `listExpiredCb`, whose check under the read lock changes nothing.
use custom_net_framework.Prelude.{
  ℕ, ◌≡◌, ◌≢◌, ◌↔◌, refl, inl, inr, Bool, true, false, Option, none, some, List, [], ◌∷◌, arith,
  ◌==◌, if◌then◌else◌, contains, Bool-cases, has, is_empty, subst,
}
use custom_net_framework.Timer.Set.{Callback}
use custom_net_framework.Timer.{
  TimerManager, init, detect_clock_rollover, add_timer, cancel, refresh, reset, get_next_timer,
  list_expired_locked, list_expired_cb,
}
use custom_net_framework.Timer.Invariant.{
  Inv, init-Inv, add_timer-Inv, cancel-Inv, refresh-Inv, reset-Inv, cancel_armed, cancel_idle,
  contains-others, cancelled,
}
use custom_net_framework.Timer.Expire.{set_back, list_expired_lem, locked_lem}

-- `addTimer` gets a callback that is not empty, and `new` returns an address that no timer of the
-- set occupies.
pub data Step (m : TimerManager) : TimerManager → Type 0 where
  adds :
      (now p ms : ℕ) (cb : Callback) (recurring : Bool)
      → p ≢ 0
      → contains p m.timers ≡ false
      → Step m (add_timer m now p ms (some cb) recurring).0
  cancels : (p : ℕ) {m' : TimerManager} {b : Bool} → cancel m p ≡ some (m', b) → Step m m'
  refreshes : (now p : ℕ) → Step m (refresh m now p).0
  resets : (now p ms : ℕ) (from_now : Bool) → Step m (reset m now p ms from_now).0
  asks : (now : ℕ) → Step m (get_next_timer m now).0
  expires :
      (now q : ℕ) {m' : TimerManager} {cbs : List (Option Callback)}
      → q ≢ 0
      → contains q m.timers ≡ false
      → list_expired_locked m now q ≡ some (m', cbs)
      → Step m m'

pub data Reach (start : ℕ) : TimerManager → Type 0 where
  here : Reach start (init start)
  next : {m m' : TimerManager} → Reach start m → Step m m' → Reach start m'

expires-Inv :
    (m m' : TimerManager) (now q : ℕ) (cbs : List (Option Callback))
    → Inv m
    → q ≢ 0
    → contains q m.timers ≡ false
    → list_expired_locked m now q ≡ some (m', cbs)
    → Inv m'
unfolding detect_clock_rollover
expires-Inv m m' now q cbs v nz fresh e = split m.timers refl
  where
    by_lemma : (m.timers ≡ [] → set_back m now ≡ true) → Inv m'
    by_lemma h =
        let (t, ds, f, ex) = list_expired_lem m now q v nz fresh h in
        subst Inv (ground arith) ex.inv

    split : (s : List ℕ) → m.timers ≡ s → Inv m'
    split [] i = elim (Bool-cases (set_back m now)) [
      | inl over ↦ by_lemma (λ _. over)
      | inr on_time ↦ absurd (ground (arith, locked_lem m now q [] i))
    ]
    split (p ∷ s) i = by_lemma (λ j. cc)

pub Step-Inv : {m m' : TimerManager} → Step m m' → Inv m → Inv m'
unfolding get_next_timer
Step-Inv {m} (adds now p ms cb recurring nz fresh) v =
    add_timer-Inv m now p ms cb recurring v nz fresh
Step-Inv {m} (cancels p e) v = cancel-Inv m p v e
Step-Inv {m} (refreshes now p) v = refresh-Inv m p v now
Step-Inv {m} (resets now p ms from_now) v = reset-Inv m p v now ms from_now
Step-Inv (asks now) v = record { sorted = v.sorted; armed = v.armed; nonnull = v.nonnull }
Step-Inv {m} {m'} (expires now q {cbs = cbs} nz fresh e) v = expires-Inv m m' now q cbs v nz fresh e

-- After any history of calls the set of timers is sorted by `Timer::Comparator`, holds no null
-- pointer, and holds exactly the timers that have a callback.
pub Reach-Inv : {start : ℕ} {m : TimerManager} → Reach start m → Inv m
Reach-Inv {start} here = init-Inv start
Reach-Inv (next r st) = Step-Inv st (Reach-Inv r)

-- In every reachable state `cancel` is defined: it never erases at `end()`. Its result tells if the
-- timer had a callback; afterwards the timer has none and is not in the set, and the other timers are
-- in the set just if they were.
pub cancel_lem :
    {start : ℕ} {m : TimerManager} (p : ℕ)
    → Reach start m
    → (m' : TimerManager) × (cancel m p ≡ some (m', has (m.heap p).cb))
      × ((m'.heap p).cb ≡ none)
      × ((q : ℕ) → contains q m'.timers ≡ (if p == q then false else contains q m.timers))
cancel_lem {m} p r = elim (Bool-cases (has (m.heap p).cb)) [
  | inl y ↦ (
    cancelled m p v,
    ground (arith, cancel_armed m p v y),
    ground arith,
    λ q. ground (arith, contains-others m p v q, v.armed q),
  )
  | inr n ↦ (
    m,
    ground (arith, cancel_idle m p v n),
    ground arith,
    λ q. ground (arith, v.armed p, v.armed q),
  )
]
  where
    v : Inv m
    v = Reach-Inv r

-- `listExpiredCb` dereferences `begin()` of an empty set exactly when the set held a timer at the
-- check under the read lock, other threads emptied it before the write lock, and the clock was not
-- set back.
pub list_expired_race :
    (between : TimerManager → TimerManager) (m : TimerManager) (now q : ℕ)
    → (list_expired_cb between m now q ≡ none) ↔ (
        (is_empty m.timers ≡ false)
        × ((between m).timers ≡ [])
        × (set_back (between m) now ≡ false))
unfolding list_expired_cb detect_clock_rollover
list_expired_race between m now q = (to, from)
  where
    to :
        list_expired_cb between m now q ≡ none
        → (is_empty m.timers ≡ false)
          × ((between m).timers ≡ [])
          × (set_back (between m) now ≡ false)
    to e = split (between m).timers refl
      where
        split :
            (s : List ℕ)
            → (between m).timers ≡ s
            → (is_empty m.timers ≡ false)
              × ((between m).timers ≡ [])
              × (set_back (between m) now ≡ false)
        split [] i = ground (arith, locked_lem (between m) now q [] i)
        split (p ∷ s) i = ground (arith, locked_lem (between m) now q (p ∷ s) i)

    from :
        (is_empty m.timers ≡ false) × ((between m).timers ≡ []) × (set_back (between m) now ≡ false)
        → list_expired_cb between m now q ≡ none
    from h = ground (arith, locked_lem (between m) now q [] h.1)
