-- ===== src/Scheduler/Lifecycle/Tests.antt =====
-- A scheduler of three threads, one of which is the caller's.
use custom_net_framework.Prelude.{ℕ, ◌≡◌, ◌+◌, true, false, some, [], ◌∷◌, arith}
use custom_net_framework.Fiber.{init}
use custom_net_framework.Scheduler.Lifecycle.{
  Scheduler, new_shared, new_scheduler, start_threads, Started, start_lem,
}

start_lem_example :
    (s s' : Scheduler) × (new_scheduler 3 true true 7 ≡ some s)
    × (start_threads s (λ i. i + 20) ≡ some s')
    × Started 3 true s'
    × ((ids' : ℕ → ℕ) → start_threads s' ids' ≡ some s')
start_lem_example = start_lem 3 7 true (λ i. i + 20) (omega arith)

abbrev running : Scheduler
running = record {
  shared = record new_shared { stopping = false };
  thread_count = 2;
  root_thread = some 7;
  root_fiber = some init;
  threads = 20 ∷ 21 ∷ [];
  thread_ids = 7 ∷ 20 ∷ 21 ∷ [];
}
