-- ===== src/IoManager/Poll/Tests.antt =====
-- A manager that may stop: no timer, no awaited event, no task, two threads at the top of their loop.
use custom_net_framework.Prelude.{
  max_u64, u32, ◌≢◌, ◌↔◌, ◌≤◌, ℕ, ◌≡◌, ◌<◌, ◌^◌, refl, true, false, [], arith,
}
use custom_net_framework.Timer.{init, get_next_timer}
use custom_net_framework.Timer.Steps.{here, Reach-Inv}
use custom_net_framework.Timer.Wake.{InRange}
use custom_net_framework.Scheduler.{is_stopping}
use custom_net_framework.Scheduler.System.{System, start, Reach, next, stops}
use custom_net_framework.Scheduler.Safety.{is_active}
use custom_net_framework.Scheduler.System
use custom_net_framework.IoManager.Books.{events_at, waiting-fresh}
use custom_net_framework.IoManager.{fresh_contexts}
use custom_net_framework.IoManager.Construct.{fresh-Books}
use custom_net_framework.IoManager.Poll.{
  stopping, stopping_lem, poll_timeout, max_timeout, poll_timeout_lem,
}

abbrev stopped : System
stopped = record start { shared = record (start.shared) { stopping = true; auto_stop = true } }

stopped-Reach : Reach 2 stopped
stopped-Reach = next System.here stops

init_range : InRange (init 1000)
unfolding init
init_range p = omega arith

stopping_lem_example :
    ((init 1000).timers ≡ [])
    × ((fd : ℕ) → events_at (fresh_contexts 0 32) fd ≡ 0)
    × (stopped.shared.fibers ≡ [])
    × ((i : ℕ) → i < 2 → is_active (stopped.pc i) ≡ false)
unfolding init stopping get_next_timer is_stopping
stopping_lem_example =
    stopping_lem (init 1000) 1001 0 (fresh_contexts 0 32) (Reach-Inv here) init_range (omega arith)
      (omega arith) (fresh-Books 32 (omega arith)) (omega (arith, waiting-fresh 0 32)) (omega arith)
      stopped-Reach refl

-- The next timer is due in 2^31 milliseconds.
poll_timeout_lem_example :
    ((2 ^ 31 ≡ max_u64 → poll_timeout (2 ^ 31) ≡ max_timeout)
      × (2 ^ 31 < 2 ^ 31
          → (poll_timeout (2 ^ 31) ≤ max_timeout) × (poll_timeout (2 ^ 31) ≤ 2 ^ 31)))
    × ((2 ^ 31 ≤ poll_timeout (2 ^ 31)) ↔ ((2 ^ 31 ≢ max_u64) × (2 ^ 31 ≤ u32 (2 ^ 31))))
poll_timeout_lem_example = poll_timeout_lem (2 ^ 31) (omega arith)
