-- ===== src/Mutex.antt =====
-- sylar/sylar/mutex.h: the guards `ScopedLockImpl`, `ReadScopedLockImpl` and `WriteScopedLockImpl`
-- over any mutex, and the spin lock `CASLock`. A mutex is what its calls make of a state.
pub mod Guards
pub mod Exclusion
mod Tests
use custom_net_framework.Prelude.{
  ℕ, zero, suc, Bool, true, false, List, [], ◌∷◌, ◌++◌, if◌then◌else◌, not,
}

-- The calls that a caller makes on a guard between its constructor and its destructor.
pub data GuardCall : Type 0 where
  call_lock call_unlock : GuardCall

module _ {ℓ} {T : Type ℓ} (acquire release : T → T) where
  -- The constructor, `lock` and `unlock`: the mutex and `m_locked`.
  pub new_guard : T → T × Bool
  new_guard mutex = (acquire mutex, true)

  pub lock_guard : T × Bool → T × Bool
  lock_guard (mutex, locked) = if not locked then (acquire mutex, true) else (mutex, locked)

  pub unlock_guard : T × Bool → T × Bool
  unlock_guard (mutex, locked) = if locked then (release mutex, false) else (mutex, locked)

  pub run_guard : List GuardCall → T × Bool → T × Bool
  run_guard [] g = g
  run_guard (call_lock ∷ cs) g = run_guard cs (lock_guard g)
  run_guard (call_unlock ∷ cs) g = run_guard cs (unlock_guard g)

  -- A guard's whole life; the destructor unlocks.
  pub with_guard : List GuardCall → T → T
  unfolding new_guard run_guard unlock_guard
  with_guard cs mutex = (unlock_guard (run_guard cs (new_guard mutex))).0

-- A mutex with `lock` and `unlock`, and one with `rdlock` and `wrlock`.
pub record Lockable {ℓ} (T : Type ℓ) : Type ℓ where
  pub lock : T → T
  pub unlock : T → T

pub record RwLockable {ℓ} (T : Type ℓ) : Type ℓ where
  pub rdlock : T → T
  pub wrlock : T → T
  pub unlock : T → T

pub scoped_lock {ℓ} : {T : Type ℓ} → Lockable T → List GuardCall → T → T
scoped_lock k = with_guard (k.lock) (k.unlock)

pub read_scoped_lock {ℓ} : {T : Type ℓ} → RwLockable T → List GuardCall → T → T
read_scoped_lock k = with_guard (k.rdlock) (k.unlock)

pub write_scoped_lock {ℓ} : {T : Type ℓ} → RwLockable T → List GuardCall → T → T
write_scoped_lock k = with_guard (k.wrlock) (k.unlock)

-- `NullMutex` and `NullRWMutex` do nothing.
pub null_mutex : {T : Type 0} → Lockable T
null_mutex = record { lock = λ t. t; unlock = λ t. t }

pub null_rw_mutex : {T : Type 0} → RwLockable T
null_rw_mutex = record { rdlock = λ t. t; wrlock = λ t. t; unlock = λ t. t }

-- The flag of a new CASLock, one round of `lock`, which returns if the flag was clear, and `unlock`.
pub new_cas : Bool
new_cas = false

pub test_and_set : Bool → Bool × Bool
test_and_set flag = (true, flag)

pub clear_cas : Bool → Bool
clear_cas flag = false

-- What a thread has yet to call on the lock.
pub data LockCall : Type 0 where
  lock unlock : LockCall

-- The lock that notes the calls made on it.
pub recorder : Lockable (List LockCall)
recorder = record { lock = λ t. t ++ (lock ∷ []); unlock = λ t. t ++ (unlock ∷ []) }

-- A thread that makes one guard after another.
pub program : List (List GuardCall) → List LockCall → List LockCall
unfolding scoped_lock recorder
program [] t = t
program (cs ∷ lives) t = program lives (scoped_lock recorder cs t)

-- One turn of a thread: a round of the loop in `lock`, or `unlock`.
pub step : Bool → List LockCall → Bool × List LockCall
unfolding test_and_set clear_cas
step flag [] = (flag, [])
step flag (lock ∷ cs) =
    let (flag', held) = test_and_set flag in if held then (flag', lock ∷ cs) else (flag', cs)
step flag (unlock ∷ cs) = (clear_cas flag, cs)

-- The turn of thread `i`.
pub turn : ℕ → Bool × List (List LockCall) → Bool × List (List LockCall)
unfolding step
turn i (flag, []) = (flag, [])
turn zero (flag, t ∷ ts) = let (flag', t') = step flag t in (flag', t' ∷ ts)
turn (suc i) (flag, t ∷ ts) = let (flag', ts') = turn i (flag, ts) in (flag', t ∷ ts')

-- Turns in the order that the machine schedules them.
pub turns : List ℕ → Bool × List (List LockCall) → Bool × List (List LockCall)
turns [] w = w
turns (i ∷ is) w = turns is (turn i w)
