-- ===== src/Scheduler/Lifecycle.antt =====
-- The constructor, `start` and `stop` of Scheduler. A failed SYLAR_ASSERT is `none`.
mod Tests
use custom_net_framework.Prelude.{
  ℕ, zero, suc, ◌+◌, ◌-◌, ◌<◌, ◌≡◌, Bool, true, false, not, ◌&&◌, ◌||◌, Option, none, some, List,
  [], ◌∷◌, ◌++◌, ◌==◌, if◌then◌else◌, has, is_empty, length, length-append, refl, ap, ◌∙◌, arith,
}
use custom_net_framework.Fiber.{State, init, hold, exec, term, ready, except}
use custom_net_framework.Scheduler.{Shared, is_stopping}

-- The members of `Scheduler`. `root_fiber` is the state of `m_rootFiber`, and a root thread of -1 is
-- `none`.
pub record Scheduler : Type 0 where
  pub shared : Shared
  pub thread_count : ℕ
  pub root_thread : Option ℕ
  pub root_fiber : Option State
  pub threads : List ℕ
  pub thread_ids : List ℕ

abbrev pub new_shared : Shared
new_shared = record {
  fibers = [];
  active_thread_count = 0;
  idle_thread_count = 0;
  stopping = true;
  auto_stop = false;
  state = λ f. init;
}

-- `Scheduler::Scheduler` on the thread `self`; `is_null` tells if that has no scheduler yet.
pub new_scheduler : ℕ → Bool → Bool → ℕ → Option Scheduler
new_scheduler threads use_caller is_null self =
    if threads == 0
    then none
    else if not use_caller
    then some (record {
      shared = new_shared;
      thread_count = threads;
      root_thread = none;
      root_fiber = none;
      threads = [];
      thread_ids = [];
    })
    else if not is_null
    then none
    else some (record {
      shared = new_shared;
      thread_count = threads - 1;
      root_thread = some self;
      root_fiber = some init;
      threads = [];
      thread_ids = self ∷ [];
    })

-- The new threads, by the ids that they get.
pub spawn : ℕ → (ℕ → ℕ) → List ℕ
spawn zero ids = []
spawn (suc n) ids = ids 0 ∷ spawn n (λ i. ids (suc i))

-- `Scheduler::start`.
pub start_threads : Scheduler → (ℕ → ℕ) → Option Scheduler
unfolding spawn
start_threads s ids =
    let new = spawn s.thread_count ids in
    if not s.shared.stopping
    then some s
    else if not (is_empty s.threads)
    then none
    else some (record s {
      shared = record (s.shared) { stopping = false };
      threads = new;
      thread_ids = s.thread_ids ++ new;
    })

-- What `stop` does: how often it tickles, whether it calls the root fiber, and whom it joins.
pub record Stop : Type 0 where
  pub scheduler : Scheduler
  pub tickles : ℕ
  pub calls_root : Bool
  pub joins : List ℕ

abbrev pub is_at_rest : State → Bool
is_at_rest init = true
is_at_rest term = true
is_at_rest _ = false

abbrev pub root_rests : Scheduler → Bool
root_rests s = s.thread_count == 0 && elim s.root_fiber [ none ↦ false | some x ↦ is_at_rest x ]

-- `Scheduler::stop`; `is_this` tells if it runs on a thread of this scheduler, and `call` is what the
-- call of the root fiber makes of the shared state.
pub stop : Scheduler → Bool → (Shared → Shared) → Option Stop
stop s is_this call =
    let a = record (s.shared) { auto_stop = true } in
    let b = record (s.shared) { auto_stop = true; stopping = true } in
    let calls = has s.root_fiber && not (is_stopping b) in
    if root_rests s && is_stopping b
    then some (record {
      scheduler = record s { shared = b };
      tickles = 0;
      calls_root = false;
      joins = [];
    })
    else if not (if has s.root_thread then is_this else not is_this)
    then none
    else some (record {
      scheduler = record s { shared = if calls then call b else b; threads = [] };
      tickles = s.thread_count + (if has s.root_fiber then 1 else 0);
      calls_root = calls;
      joins = s.threads;
    })

length-spawn : (n : ℕ) (ids : ℕ → ℕ) → length (spawn n ids) ≡ n
unfolding spawn
length-spawn zero ids = refl
length-spawn (suc n) ids = ap suc (length-spawn n (λ i. ids (suc i)))

-- The scheduler has started, with so many threads in all.
pub record Started (threads : ℕ) (use_caller : Bool) (s : Scheduler) : Type 0 where
  pub ids : length s.thread_ids ≡ threads
  pub others : length s.threads ≡ s.thread_count
  pub running : s.shared.stopping ≡ false
  pub rooted : has s.root_thread ≡ use_caller
  pub fibered : has s.root_fiber ≡ use_caller

abbrev after_start : Scheduler → (ℕ → ℕ) → Scheduler
after_start s ids = record s {
  shared = record (s.shared) { stopping = false };
  threads = spawn s.thread_count ids;
  thread_ids = s.thread_ids ++ spawn s.thread_count ids;
}

-- A new scheduler with some threads, made on a thread that has no scheduler yet: after its start it has
-- that many thread ids in all, its own threads are those that it still had to make, it is not
-- stopping, and a second start changes nothing. No assertion fails.
pub start_lem :
    (threads self : ℕ) (use_caller : Bool) (ids : ℕ → ℕ)
    → 0 < threads
    → (s s' : Scheduler) × (new_scheduler threads use_caller true self ≡ some s)
      × (start_threads s ids ≡ some s')
      × Started threads use_caller s'
      × ((ids' : ℕ → ℕ) → start_threads s' ids' ≡ some s')
unfolding new_scheduler start_threads
start_lem zero self use_caller ids h = absurd (omega (arith, h))
start_lem (suc n) self true ids h =
    let k = suc n - 1 in
    let s : Scheduler = record {
      shared = new_shared;
      thread_count = k;
      root_thread = some self;
      root_fiber = some init;
      threads = [];
      thread_ids = self ∷ [];
    } in
    (
      s,
      after_start s ids,
      ground arith,
      refl,
      record {
        ids = omega (arith, length-spawn k ids);
        others = length-spawn k ids;
        running = refl;
        rooted = refl;
        fibered = refl;
      },
      λ ids'. refl,
    )
start_lem (suc n) self false ids h =
    let s : Scheduler = record {
      shared = new_shared;
      thread_count = suc n;
      root_thread = none;
      root_fiber = none;
      threads = [];
      thread_ids = [];
    } in
    (
      s,
      after_start s ids,
      ground arith,
      refl,
      record {
        ids = length-spawn (suc n) ids;
        others = length-spawn (suc n) ids;
        running = refl;
        rooted = refl;
        fibered = refl;
      },
      λ ids'. refl,
    )
