-- ===== src/Timer.antt =====
-- sylar/sylar/timer.h and timer.cpp: timers on a heap of objects, ordered by a std::set of pointers.
-- The clock (`GetCurrentMS`) and the addresses that `new` returns are arguments of the operations.
pub mod Set
pub mod Invariant
pub mod Loop
pub mod Expire
pub mod Steps
pub mod Wake
mod Tests
use custom_net_framework.Prelude.{
  ℕ, zero, suc, ◌+◌, ◌*◌, Bool, true, false, not, ◌&&◌, Option, none, some, List, [], ◌∷◌, ◌==◌,
  ltb, leb, if◌then◌else◌, has, is_empty, update, u64, sub64, max_u64, take, drop, length,
}
use Set.{Timer, Callback, plain, on_timer, Heap, insert, lower_bound, find, erase_at, advance}

-- `TimerManager` with the heap on which its timers live.
pub record TimerManager : Type 0 where
  pub heap : Heap
  pub timers : List ℕ
  pub tickled : Bool
  pub previouse_time : ℕ

-- `Timer::Timer(ms, cb, recurring, manager)` at time `now`.
pub new_timer : ℕ → ℕ → Option Callback → Bool → Timer
new_timer now ms cb recurring = record {
  recurring = recurring;
  ms = ms;
  next = u64 (now + ms);
  cb = cb;
}

-- `Timer::Timer(next)`.
pub mark_timer : ℕ → Timer
mark_timer next = record { recurring = false; ms = 0; next = next; cb = none }

-- `TimerManager::TimerManager`.
unfoldable pub init : ℕ → TimerManager
unfolding mark_timer
init now = record { heap = λ _. mark_timer 0; timers = []; tickled = false; previouse_time = now }

-- `TimerManager::addTimer(val, lock)`: the new state, and whether it calls `onTimerInsertedAtFront`.
pub insert_timer : TimerManager → ℕ → TimerManager × Bool
insert_timer m p =
    let at_front = lower_bound m.heap p m.timers == 0 && not m.tickled in
    (
      record m {
        timers = insert m.heap p m.timers;
        tickled = if at_front then true else m.tickled;
      },
      at_front,
    )

-- `TimerManager::addTimer(ms, cb, recurring)`, where `new` returned the address `p`.
unfoldable pub add_timer : TimerManager → ℕ → ℕ → ℕ → Option Callback → Bool → TimerManager × Bool
unfolding insert_timer new_timer
add_timer m now p ms cb recurring =
    insert_timer (record m { heap = update m.heap p (new_timer now ms cb recurring) }) p

-- `TimerManager::addConditionTimer`.
unfoldable pub add_condition_timer : TimerManager → ℕ → ℕ → ℕ → ℕ → ℕ → Bool → TimerManager × Bool
unfolding add_timer
add_condition_timer m now p ms cb weak_cond recurring =
    add_timer m now p ms (some (on_timer weak_cond cb)) recurring

-- `Timer::cancel` on the timer at `p`. `none`: the set erases at `end()`, which is undefined.
unfoldable pub cancel : TimerManager → ℕ → Option (TimerManager × Bool)
cancel m p =
    let h = update m.heap p (record (m.heap p) { cb = none }) in
    if has (m.heap p).cb
    then elim (find h p m.timers) [
      | none ↦ none
      | some it ↦ some (record m { heap = h; timers = erase_at it m.timers }, true)
    ]
    else some (m, false)

-- `Timer::refresh`.
pub refresh : TimerManager → ℕ → ℕ → TimerManager × Bool
refresh m now p = if not (has (m.heap p).cb) then (m, false) else elim (find m.heap p m.timers) [
  | none ↦ (m, false)
  | some it ↦
      let h = update m.heap p (record (m.heap p) { next = u64 (now + (m.heap p).ms) }) in
      (record m { heap = h; timers = insert h p (erase_at it m.timers) }, true)
]

-- The time from which `Timer::reset` counts.
pub reset_start : Timer → ℕ → Bool → ℕ
reset_start t now from_now = if from_now then now else sub64 t.next t.ms

-- `Timer::reset`: the new state, the call of `onTimerInsertedAtFront`, and the result.
pub reset : TimerManager → ℕ → ℕ → ℕ → Bool → TimerManager × Bool × Bool
unfolding insert_timer reset_start
reset m now p ms from_now =
    if ms == (m.heap p).ms && not from_now
    then (m, false, true)
    else if not (has (m.heap p).cb)
    then (m, false, false)
    else elim (find m.heap p m.timers) [
      | none ↦ (m, false, false)
      | some it ↦
          let start = reset_start (m.heap p) now from_now in
          let t = record (m.heap p) { ms = ms; next = u64 (start + ms) } in
          let r =
            insert_timer (record m { heap = update m.heap p t; timers = erase_at it m.timers }) p in
          (r.0, r.1, true)
    ]

-- `TimerManager::getNextTimer`.
unfoldable pub get_next_timer : TimerManager → ℕ → TimerManager × ℕ
get_next_timer m now = (record m { tickled = false }, delay m.timers)
  where
    delay : List ℕ → ℕ
    delay [] = max_u64
    delay (p ∷ _) = if leb (m.heap p).next now then 0 else sub64 (m.heap p).next now

-- `TimerManager::hasTimer`.
pub has_timer : TimerManager → Bool
has_timer m = not (is_empty m.timers)

-- `TimerManager::detectClockRollover`.
pub detect_clock_rollover : TimerManager → ℕ → TimerManager × Bool
detect_clock_rollover m now = (
  record m { previouse_time = now },
  ltb now m.previouse_time && ltb now (sub64 m.previouse_time (60 * 60 * 1000)),
)

-- One turn of the loop over `expired` in `TimerManager::listExpiredCb`: what becomes of the timer,
-- and of the set.
pub expired_timer : ℕ → Timer → Timer
expired_timer now t =
    if t.recurring then record t { next = u64 (now + t.ms) } else record t { cb = none }

pub expire_one : ℕ → ℕ → TimerManager → TimerManager
unfolding expired_timer
expire_one now p m =
    let h = update m.heap p (expired_timer now (m.heap p)) in
    record m { heap = h; timers = if (m.heap p).recurring then insert h p m.timers else m.timers }

pub expire : ℕ → List ℕ → TimerManager → TimerManager × List (Option Callback)
unfolding expire_one
expire now [] m = (m, [])
expire now (p ∷ ps) m = let r = expire now ps (expire_one now p m) in (r.0, (m.heap p).cb ∷ r.1)

-- `listExpiredCb` from `now_timer` on, which `new` puts at the address `q`.
pub collect_expired : TimerManager → ℕ → ℕ → Bool → TimerManager × List (Option Callback)
unfolding expire mark_timer
collect_expired m now q rollover =
    let h = update m.heap q (mark_timer now) in
    let it =
      advance h now m.timers (if rollover then length m.timers else lower_bound h q m.timers) in
    expire now (take it m.timers) (record m { heap = h; timers = drop it m.timers })

-- `listExpiredCb` under the write lock. `none`: `*m_timers.begin()` of an empty set.
pub list_expired_locked : TimerManager → ℕ → ℕ → Option (TimerManager × List (Option Callback))
unfolding collect_expired detect_clock_rollover
list_expired_locked m now q =
    let r = detect_clock_rollover m now in
    let collected = collect_expired r.0 now q r.1 in
    elim m.timers [
      | [] ↦ if r.1 then some collected else none
      | p ∷ _ ↦ if not r.1 && ltb now (m.heap p).next then some (r.0, []) else some collected
    ]

-- `TimerManager::listExpiredCb`. Between its read lock and its write lock other threads may run:
-- `between` is what they do to the state.
unfoldable pub list_expired_cb :
    (TimerManager → TimerManager)
    → TimerManager
    → ℕ
    → ℕ
    → Option (TimerManager × List (Option Callback))
unfolding list_expired_locked
list_expired_cb between m now q =
    if is_empty m.timers then some (m, []) else list_expired_locked (between m) now q
