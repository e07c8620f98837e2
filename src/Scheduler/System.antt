-- ===== src/Scheduler/System.antt =====
-- `n` worker threads in `Scheduler::run` over one scheduler, interleaved in any order, statement by
-- statement: each step holds m_mutex, or acts once on what the threads share. A thread that fails an
-- assertion takes no step.
use custom_net_framework.Prelude.{
  ℕ, ◌+◌, ◌<◌, ◌≡◌, Bool, true, false, not, none, some, [], update, has, u64, sub64,
}
use custom_net_framework.Fiber.{
  State, init, hold, exec, ready, is_exec, is_ready, is_over, is_resettable,
}
use custom_net_framework.Scheduler.{
  Task, Shared, Picked, pick, scheduler_no_lock, set_state, less_active, fiber_task,
}

-- Where a worker thread stands. `own` tells if the fiber is the thread's `cb_fiber`.
pub data Place : Type 0 where
  -- before it locks the queue
  top : Place
  -- it has taken a task, and counted itself active
  chose : Task → Place
  -- before the assertion of `swapIn`, before it sets EXEC, and in the fiber
  entering switching inside : (f : ℕ) (own : Bool) → Place
  -- the fiber has come back; it is no longer counted active; the fiber is not READY
  back uncounted unready : (f : ℕ) (own : Bool) → Place
  -- before it schedules the fiber, and before it sets HOLD
  queueing holding : (f : ℕ) → Place
  -- it has taken a task with nothing to run
  dropped : Place
  -- the queue has nothing for it; in the idle fiber; out of the loop
  nothing in_idle left : Place

-- The test of `run` on the fiber of a task.
abbrev pub is_usable : (ℕ → State) → Task → Bool
is_usable state t = elim t.fiber [ none ↦ false | some f ↦ not (is_over (state f)) ]

-- One step of the thread `i`.
pub data Move (i : ℕ) (s : Shared) : Place → Shared → Place → Type 0 where
  takes :
      {p : Picked} {t : Task}
      → pick i s.state s.fibers ≡ some p
      → p.task ≡ some t
      → Move i s top
          (record s { fibers = p.rest; active_thread_count = u64 (s.active_thread_count + 1) })
          (chose t)
  finds_nothing :
      {p : Picked} → pick i s.state s.fibers ≡ some p → p.task ≡ none → Move i s top s nothing
  starts :
      {t : Task} {f : ℕ}
      → t.fiber ≡ some f
      → is_usable s.state t ≡ true
      → Move i s (chose t) s (entering f false)
  renews :
      {t : Task} (f : ℕ)
      → is_usable s.state t ≡ false
      → has t.cb ≡ true
      → is_resettable (s.state f) ≡ true
      → Move i s (chose t) (set_state s f init) (entering f true)
  drops : {t : Task} → is_usable s.state t ≡ false → has t.cb ≡ false → Move i s (chose t) s dropped
  uncounts_dropped : Move i s dropped (less_active s) top
  asserts :
      {f : ℕ} {own : Bool}
      → is_exec (s.state f) ≡ false
      → Move i s (entering f own) s (switching f own)
  switches : {f : ℕ} {own : Bool} → Move i s (switching f own) (set_state s f exec) (inside f own)
  yields_to_hold :
      {f : ℕ} {own : Bool} → is_exec (s.state f) ≡ true → Move i s (inside f own) s (back f own)
  yields_to_ready :
      {f : ℕ} {own : Bool}
      → is_exec (s.state f) ≡ true
      → Move i s (inside f own) (set_state s f ready) (back f own)
  ends :
      {f : ℕ} {own : Bool} (x : State)
      → is_over x ≡ true
      → Move i s (inside f own) (set_state s f x) (back f own)
  uncounts : {f : ℕ} {own : Bool} → Move i s (back f own) (less_active s) (uncounted f own)
  sees_ready :
      {f : ℕ} {own : Bool} → is_ready (s.state f) ≡ true → Move i s (uncounted f own) s (queueing f)
  sees_other :
      {f : ℕ} {own : Bool}
      → is_ready (s.state f) ≡ false
      → Move i s (uncounted f own) s (unready f own)
  requeues :
      {f : ℕ}
      → Move i s
          (queueing f)
          (record s { fibers = (scheduler_no_lock s.fibers (fiber_task f)).0 })
          top
  lets_go : {f : ℕ} → is_over (s.state f) ≡ true → Move i s (unready f false) s top
  clears : {f : ℕ} → is_over (s.state f) ≡ true → Move i s (unready f true) (set_state s f init) top
  sees_running :
      {f : ℕ} {own : Bool} → is_over (s.state f) ≡ false → Move i s (unready f own) s (holding f)
  holds : {f : ℕ} → Move i s (holding f) (set_state s f hold) top
  exits : Move i s nothing s left
  idles : Move i s nothing (record s { idle_thread_count = u64 (s.idle_thread_count + 1) }) in_idle
  wakes : Move i s in_idle (record s { idle_thread_count = sub64 s.idle_thread_count 1 }) top

pub record System : Type 0 where
  pub shared : Shared
  pub pc : ℕ → Place

-- A step of a worker; a task that is scheduled from anywhere; stop().
pub data Step (n : ℕ) (σ : System) : System → Type 0 where
  moves :
      (i : ℕ) {p q : Place} {s : Shared}
      → i < n
      → σ.pc i ≡ p
      → Move i (σ.shared) p s q
      → Step n σ (record { shared = s; pc = update σ.pc i q })
  schedules :
      (t : Task)
      → Step n σ (record σ {
        shared = record (σ.shared) { fibers = (scheduler_no_lock (σ.shared.fibers) t).0 };
      })
  stops : Step n σ (record σ { shared = record (σ.shared) { stopping = true; auto_stop = true } })

-- A scheduler that has started, with no thread in a task.
abbrev pub start : System
start = record {
  shared = record {
    fibers = [];
    active_thread_count = 0;
    idle_thread_count = 0;
    stopping = false;
    auto_stop = false;
    state = λ _. init;
  };
  pc = λ _. top;
}

pub data Reach (n : ℕ) : System → Type 0 where
  here : Reach n start
  next : {σ τ : System} → Reach n σ → Step n σ τ → Reach n τ
