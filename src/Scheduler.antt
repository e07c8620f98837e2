-- ===== src/Scheduler.antt =====
-- sylar/sylar/scheduler.h and scheduler.cpp: the task queue and the loop `Scheduler::run` of a worker
-- thread. What a task does while it runs is an outcome, an argument. A failed SYLAR_ASSERT is `none`.
pub mod Queue
pub mod System
pub mod Safety
pub mod Race
pub mod Fair
pub mod Lifecycle
mod Tests
use custom_net_framework.Prelude.{
  ℕ, zero, suc, ◌+◌, ◌-◌, Bool, true, false, not, ◌&&◌, ◌||◌, Option, none, some, List, [], ◌∷◌,
  ◌++◌, ◌==◌, if◌then◌else◌, has, is_empty, u64, sub64, update,
}
use custom_net_framework.Fiber.{
  State, init, hold, exec, term, ready, except, is_exec, is_ready, is_over,
}

-- `Scheduler::FiberAndThread`; a thread of -1, any thread, is `none`.
pub record Task : Type 0 where
  pub fiber : Option ℕ
  pub cb : Option ℕ
  pub thread : Option ℕ

abbrev pub is_task : Task → Bool
is_task t = has t.fiber || has t.cb

-- `schedulerNoLock`: the queue, and whether a thread has to be woken.
pub scheduler_no_lock : List Task → Task → List Task × Bool
scheduler_no_lock q t = (if is_task t then q ++ t ∷ [] else q, is_empty q)

-- `schedule(begin, end)`.
pub schedule_all : List Task → List Task → List Task × Bool
unfolding scheduler_no_lock
schedule_all q [] = (q, false)
schedule_all q (t ∷ ts) =
    let (q', wake) = scheduler_no_lock q t in
    let (q'', wakes) = schedule_all q' ts in (q'', wake || wakes)

-- May the thread `self` not take `t`, because it is bound to another thread?
abbrev pub is_bound_elsewhere : ℕ → Task → Bool
is_bound_elsewhere self t = elim t.thread [ none ↦ false | some other ↦ not (other == self) ]

-- Is the fiber of `t` running now?
abbrev pub is_running : (ℕ → State) → Task → Bool
is_running state t = elim t.fiber [ none ↦ false | some f ↦ is_exec (state f) ]

pub record Picked : Type 0 where
  pub task : Option Task
  pub rest : List Task
  pub tickle_me : Bool

-- A task is passed over; `tickle` tells if another thread is to be woken for it.
abbrev pub pass : Task → Bool → Option Picked → Option Picked
pass t tickle none = none
pass t tickle (some p) = some (record p { rest = t ∷ p.rest; tickle_me = tickle || p.tickle_me })

-- The search of `run` for the first task that `self` can take.
pub pick : ℕ → (ℕ → State) → List Task → Option Picked
pick self state [] = some (record { task = none; rest = []; tickle_me = false })
pick self state (t ∷ ts) =
    let later = pick self state ts in
    if is_bound_elsewhere self t
    then pass t true later
    else if not (is_task t)
    then none
    else if is_running state t
    then pass t false later
    else some (record { task = some t; rest = ts; tickle_me = not (is_empty ts) })

-- What the threads share: `m_fibers`, the counters and flags, and the states of the fibers.
pub record Shared : Type 0 where
  pub fibers : List Task
  pub active_thread_count : ℕ
  pub idle_thread_count : ℕ
  pub stopping : Bool
  pub auto_stop : Bool
  pub state : ℕ → State

-- Where a worker thread stands: at the head of the loop, inside the fiber of a task, inside the
-- fiber that runs a bare callback, inside its idle fiber, or out of the loop.
pub data Phase : Type 0 where
  top : Phase
  in_fiber : (fiber : ℕ) → Phase
  in_callback : (fiber : ℕ) → Phase
  in_idle : Phase
  left : Phase

-- `Fiber::swapIn` on a fiber that is not running.
abbrev pub enter : Shared → ℕ → Phase → Option (Shared × Phase)
enter s f phase =
    if is_exec (s.state f) then none else some (record s { state = update s.state f exec }, phase)

abbrev pub less_active : Shared → Shared
less_active s = record s { active_thread_count = sub64 s.active_thread_count 1 }

-- The branch on a bare callback, which runs in the fiber `cb_fiber`; without one the task is dropped.
-- The thread keeps only a `cb_fiber` that it has reset, so the assertion of the next `reset` is left out.
abbrev pub run_callback : Shared → ℕ → Task → Option (Shared × Phase)
run_callback s cb_fiber t =
    if has t.cb then enter s cb_fiber (in_callback cb_fiber) else some (less_active s, top)

-- The branches of `run` after a task was taken.
pub dispatch : Shared → ℕ → Task → Option (Shared × Phase)
dispatch s cb_fiber t = elim t.fiber [
  | none ↦ run_callback s cb_fiber t
  | some f ↦ if is_over (s.state f) then run_callback s cb_fiber t else enter s f (in_fiber f)
]

-- A turn of the loop up to the switch into a fiber. `idle_over` tells if the thread's idle fiber has
-- ended; `cb_fiber` is the fiber that the thread keeps or makes for callbacks.
pub begin_turn : ℕ → ℕ → Bool → Shared → Option (Shared × Phase)
unfolding pick dispatch
begin_turn self cb_fiber idle_over s = elim (pick self s.state s.fibers) [
  | none ↦ none
  | some p ↦
      let u = record s { fibers = p.rest } in
      elim p.task [
        | some t ↦
            dispatch (record u { active_thread_count = u64 (s.active_thread_count + 1) }) cb_fiber t
        | none ↦
            if idle_over
            then some (u, left)
            else some (record u { idle_thread_count = u64 (s.idle_thread_count + 1) }, in_idle)
      ]
]

-- How a fiber came back to the scheduler: it yielded to HOLD (its state is still EXEC) or to READY,
-- or its callback returned or threw.
pub data Outcome : Type 0 where
  held readied returned thrown : Outcome

abbrev pub outcome_state : Outcome → State
outcome_state held = exec
outcome_state readied = ready
outcome_state returned = term
outcome_state thrown = except

-- The task that `schedule(fiber)` queues.
abbrev pub fiber_task : ℕ → Task
fiber_task f = record { fiber = some f; cb = none; thread = none }

abbrev pub set_state : Shared → ℕ → State → Shared
set_state s f x = record s { state = update s.state f x }

-- After `swapIn` of a task's fiber: count down, then look at the state in which it came back.
pub after_fiber : Shared → ℕ → Outcome → Shared
unfolding scheduler_no_lock
after_fiber s f o =
    let u = set_state (less_active s) f (outcome_state o) in
    if is_ready (u.state f)
    then record u { fibers = (scheduler_no_lock u.fibers (fiber_task f)).0 }
    else if is_over (u.state f)
    then u
    else set_state u f hold

-- After `swapIn` of the fiber of a callback, which is reset for the next callback when it has ended.
pub after_callback : Shared → ℕ → Outcome → Shared
unfolding scheduler_no_lock
after_callback s f o =
    let u = set_state (less_active s) f (outcome_state o) in
    if is_ready (u.state f)
    then record u { fibers = (scheduler_no_lock u.fibers (fiber_task f)).0 }
    else if is_over (u.state f)
    then set_state u f init
    else set_state u f hold

-- The end of a turn, when the fiber that the thread had entered comes back.
pub end_turn : Shared → Phase → Outcome → Shared × Phase
unfolding after_fiber after_callback
end_turn s (in_fiber f) o = (after_fiber s f o, top)
end_turn s (in_callback f) o = (after_callback s f o, top)
end_turn s in_idle o = (record s { idle_thread_count = sub64 s.idle_thread_count 1 }, top)
end_turn s phase o = (s, phase)

-- `Scheduler::stopping`.
unfoldable pub is_stopping : Shared → Bool
is_stopping s = s.auto_stop && s.stopping && is_empty s.fibers && s.active_thread_count == 0
