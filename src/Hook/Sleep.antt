-- ===== src/Hook/Sleep.antt =====
-- `sleep`, `usleep` and `nanosleep` in hook.cpp: the milliseconds of their timer, and the timer.
use custom_net_framework.Prelude.{
  ℕ, ◌+◌, ◌-◌, ◌*◌, ◌/◌, ◌^◌, ◌<◌, ◌≤◌, ◌≡◌, ◌≢◌, ◌↔◌, true, false, some, arith, ltb, if◌then◌else◌,
  u32, contains,
}
use custom_net_framework.Timer.Set.{plain}
use custom_net_framework.Timer.{TimerManager, add_timer}
use custom_net_framework.Timer.Steps.{Reach, next, adds, Reach-Inv}

-- `seconds * 1000` on unsigned int.
pub sleep_ms : ℕ → ℕ
sleep_ms seconds = u32 (seconds * 1000)

pub usleep_ms : ℕ → ℕ
usleep_ms usec = usec / 1000

-- `int timeout_ms`, and its conversion to the uint64_t of `addTimer`.
pub nanosleep_ms : ℕ → ℕ → ℕ
nanosleep_ms tv_sec tv_nsec =
    let timeout_ms = u32 (tv_sec * 1000 + tv_nsec / 1000 / 1000) in
    if ltb timeout_ms (2 ^ 31) then timeout_ms else timeout_ms + (2 ^ 64 - 2 ^ 32)

-- The timer at `p` that schedules the fiber, before `YieldToHold`.
pub suspend : TimerManager → (now p ms fiber : ℕ) → TimerManager
suspend m now p ms fiber = (add_timer m now p ms (some (plain fiber)) false).0

-- `sleep` asks for the milliseconds of its seconds just if these are below 2^32. `usleep` asks for
-- the whole milliseconds of its time, so for less than 1 millisecond less. `nanosleep` asks for
-- the whole milliseconds of its time if they are below 2^31, and for more than 2^63 if they are
-- from 2^31 up to 2^32.
pub sleep_times :
    (seconds usec tv_sec tv_nsec : ℕ)
    → let ms = tv_sec * 1000 + tv_nsec / 1000 / 1000 in
      ((sleep_ms seconds ≡ seconds * 1000) ↔ (seconds * 1000 < 2 ^ 32))
      × ((usleep_ms usec * 1000 ≤ usec) × (usec < usleep_ms usec * 1000 + 1000))
      × (ms < 2 ^ 31 → nanosleep_ms tv_sec tv_nsec ≡ ms)
      × (2 ^ 31 ≤ ms → ms < 2 ^ 32 → 2 ^ 63 < nanosleep_ms tv_sec tv_nsec)
unfolding sleep_ms usleep_ms nanosleep_ms
sleep_times seconds usec tv_sec tv_nsec =
    (ground arith, (omega arith, omega arith), λ h. ground (arith, h), λ h l. ground (arith, h, l))

-- With a fresh address for its timer and a time below 2^64, a sleeping fiber has a timer in the set
-- that is due at the present time plus the milliseconds asked for, and whose callback is the one that
-- schedules this fiber; the timers stay in a state that the calls can reach.
pub suspend_lem :
    {start : ℕ} {m : TimerManager} (now p ms fiber : ℕ)
    → Reach start m
    → p ≢ 0
    → contains p m.timers ≡ false
    → now + ms < 2 ^ 64
    → let m' = suspend m now p ms fiber in
      Reach start m'
      × (contains p m'.timers ≡ true)
      × ((m'.heap p).next ≡ now + ms)
      × ((m'.heap p).cb ≡ some (plain fiber))
unfolding suspend add_timer
suspend_lem {start} {m} now p ms fiber r nz fresh small =
    (r', ground (arith, (Reach-Inv r').armed p), ground (arith, small), ground arith)
  where
    r' : Reach start (add_timer m now p ms (some (plain fiber)) false).0
    r' = next r (adds now p ms (plain fiber) false nz fresh)
