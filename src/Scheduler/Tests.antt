-- ===== src/Scheduler/Tests.antt =====
-- A run of two worker threads, and the theorems at it.
use custom_net_framework.Prelude.{
  ℕ, ◌<◌, ◌≡◌, refl, true, false, none, some, List, [], ◌∷◌, arith, update, count_if, not, is_empty,
  ◌↔◌,
}
use custom_net_framework.Fiber.{init, exec, ready}
use custom_net_framework.Scheduler.{
  Task, scheduler_no_lock, fiber_task, is_stopping, pick, Picked, Shared, readied, returned,
}
use custom_net_framework.Scheduler.Fair.{Event, turns, Rested, turns_lem}
use custom_net_framework.Scheduler.Queue.{IsPick, pick_lem}
use custom_net_framework.Scheduler.System.{
  System, top, chose, entering, switching, inside, back, takes, moves, schedules, stops, start,
  Reach, here, next,
}
use custom_net_framework.Scheduler.Safety.{is_active, is_idle, counters_exact, stopping_exact}
use custom_net_framework.Scheduler.Race.{fiber_twice}

-- Bound to thread 1, and free.
abbrev bound_task : Task
bound_task = record { fiber = some 4; cb = none; thread = some 1 }

-- Fiber 3 queued twice.
abbrev queued : System
queued = record start {
  shared = record (start.shared) {
    fibers = (scheduler_no_lock (scheduler_no_lock [] (fiber_task 3)).0 (fiber_task 3)).0;
  };
}

queued-Reach : Reach 2 queued
queued-Reach = next (next here (schedules (fiber_task 3))) (schedules (fiber_task 3))

-- Thread 0 has taken one of the tasks.
abbrev busy : System
busy = record {
  shared = record (start.shared) { fibers = fiber_task 3 ∷ []; active_thread_count = 1 };
  pc = update (λ _. top) 0 (chose (fiber_task 3));
}

-- The search takes the first task.
abbrev taken : List Task → Picked
taken rest = record { task = some (fiber_task 3); rest = rest; tickle_me = not (is_empty rest) }

busy-Reach : Reach 2 busy
unfolding scheduler_no_lock pick
busy-Reach =
    next queued-Reach (moves 0 (omega arith) refl (takes {p = taken (fiber_task 3 ∷ [])} refl refl))

pick_skips :
    pick 0 (λ _. init) (bound_task ∷ fiber_task 3 ∷ [])
    ≡ some (record { task = some (fiber_task 3); rest = bound_task ∷ []; tickle_me = true })
unfolding pick
pick_skips = refl

abbrev stopped : System
stopped = record start { shared = record (start.shared) { stopping = true; auto_stop = true } }

stopped-Reach : Reach 2 stopped
stopped-Reach = next here stops

pick_lem_example :
    (p : Picked) × (pick 0 (λ _. init) (bound_task ∷ fiber_task 3 ∷ []) ≡ some p)
    × IsPick 0 (λ _. init) (bound_task ∷ fiber_task 3 ∷ []) p
pick_lem_example = pick_lem 0 (λ _. init) (bound_task ∷ fiber_task 3 ∷ []) (refl, (refl, tt))

counters_exact_example :
    (busy.shared.active_thread_count ≡ count_if is_active 2 busy.pc)
    × (busy.shared.idle_thread_count ≡ count_if is_idle 2 busy.pc)
counters_exact_example = counters_exact (omega arith) busy-Reach

stopping_exact_example : (is_stopping (stopped.shared) ≡ true) ↔ (
    (stopped.shared.auto_stop ≡ true)
    × (stopped.shared.stopping ≡ true)
    × (stopped.shared.fibers ≡ [])
    × ((i : ℕ) → i < 2 → is_active (stopped.pc i) ≡ false))
stopping_exact_example = stopping_exact (omega arith) stopped-Reach

fiber_twice_example :
    (τ : System) × Reach 2 τ
    × (τ.pc 0 ≡ inside 3 false)
    × (τ.pc 1 ≡ inside 3 false)
    × (τ.shared.fibers ≡ [])
unfolding scheduler_no_lock
fiber_twice_example =
    fiber_twice 0 1 3 (omega arith) (omega arith) refl [] queued-Reach refl refl refl refl refl

-- Thread 0 runs fiber 3, which yields to READY after stop() was called.
abbrev lone : System
lone = record start {
  shared = record (start.shared) { fibers = (scheduler_no_lock [] (fiber_task 3)).0 };
}

abbrev came_back : System
came_back = record {
  shared = record {
    fibers = [];
    active_thread_count = 1;
    idle_thread_count = 0;
    stopping = true;
    auto_stop = true;
    state = update (update (λ _. init) 3 exec) 3 ready;
  };
  pc =
      update
        (update
          (update (update (update (λ _. top) 0 (chose (fiber_task 3))) 0 (entering 3 false)) 0
            (switching 3 false))
          0 (inside 3 false))
        0 (back 3 false);
}

-- A worker with a fiber and a callback in its queue. The fiber yields, and is queued again.
abbrev call_back : Task
call_back = record { fiber = none; cb = some 7; thread = none }

abbrev worker : Shared
worker = record (start.shared) { fibers = fiber_task 3 ∷ call_back ∷ []; state = λ _. init }

abbrev two_turns : List Event
two_turns =
    record { cb_fiber = 8; scheduled = []; outcome = readied }
    ∷ record { cb_fiber = 9; scheduled = bound_task ∷ []; outcome = returned }
    ∷ []

turns_lem_example :
    (s : Shared) × (turns 0 two_turns worker ≡ some (some (fiber_task 3) ∷ some call_back ∷ [], s))
    × Rested s.state
turns_lem_example =
    turns_lem 0 (fiber_task 3 ∷ call_back ∷ []) [] two_turns worker (λ f. refl)
      ((refl, refl), ((refl, refl), tt)) refl refl
