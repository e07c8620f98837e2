-- ===== src/Semaphore.antt =====
-- `FiberSemaphore` in sylar/sylar/mutex.h and mutex.cpp: a semaphore on which fibers wait.
pub mod Order
mod Tests
use custom_net_framework.Prelude.{
  ℕ, ◌+◌, ◌-◌, Bool, true, false, Option, none, some, List, [], ◌∷◌, ◌++◌, ltb, if◌then◌else◌, u64,
  is_empty,
}

-- A waiter is the scheduler and the fiber that called `wait`.
pub record FiberSemaphore : Type 0 where
  pub concurrency : ℕ
  pub waiters : List (ℕ × ℕ)

pub new_semaphore : ℕ → FiberSemaphore
new_semaphore initial_concurrency = record { concurrency = initial_concurrency; waiters = [] }

-- `tryWait`.
pub try_wait : FiberSemaphore → FiberSemaphore × Bool
try_wait s =
    if ltb 0 s.concurrency then (record s { concurrency = s.concurrency - 1 }, true) else (s, false)

-- `wait`: whether it returns at once. If not, the fiber yields.
pub wait : FiberSemaphore → (scheduler fiber : ℕ) → FiberSemaphore × Bool
wait s scheduler fiber =
    if ltb 0 s.concurrency
    then (record s { concurrency = s.concurrency - 1 }, true)
    else (record s { waiters = s.waiters ++ ((scheduler, fiber) ∷ []) }, false)

-- `notify`: the waiter that it schedules, if any.
pub notify : FiberSemaphore → FiberSemaphore × Option (ℕ × ℕ)
notify s = elim s.waiters [
  | [] ↦ (record s { concurrency = u64 (s.concurrency + 1) }, none)
  | w ∷ ws ↦ (record s { waiters = ws }, some w)
]

-- `reset`, which does not take the lock.
pub reset : FiberSemaphore → FiberSemaphore
reset s = record s { concurrency = 0 }

-- Whether the assertion of the destructor holds.
pub may_destroy : FiberSemaphore → Bool
may_destroy s = is_empty s.waiters
