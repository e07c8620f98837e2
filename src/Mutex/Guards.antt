-- ===== src/Mutex/Guards.antt =====
-- What a guard does to its mutex.
use custom_net_framework.Prelude.{
  ℕ, zero, suc, ◌≡◌, refl, ap, ◌∙◌, Bool, true, false, List, [], ◌∷◌, ◌+◌, bit, if◌then◌else◌,
  arith,
}
use custom_net_framework.Mutex.{
  GuardCall, call_lock, call_unlock, new_guard, lock_guard, unlock_guard, run_guard, with_guard,
}

-- Acquired and released, so many times.
unfoldable pub cycles {ℓ} : {T : Type ℓ} → (T → T) → (T → T) → ℕ → T → T
cycles acquire release zero t = t
cycles acquire release (suc k) t = release (acquire (cycles acquire release k t))

-- How often a guard that is, or is not, locked acquires the mutex in these calls.
pub acquires : Bool → List GuardCall → ℕ
acquires locked [] = 0
acquires false (call_lock ∷ cs) = suc (acquires true cs)
acquires true (call_lock ∷ cs) = acquires true cs
acquires locked (call_unlock ∷ cs) = acquires false cs

-- Whether it is locked afterwards.
pub ends_locked : Bool → List GuardCall → Bool
ends_locked locked [] = locked
ends_locked locked (call_lock ∷ cs) = ends_locked true cs
ends_locked locked (call_unlock ∷ cs) = ends_locked false cs

-- How often it releases the mutex in them.
releases : Bool → List GuardCall → ℕ
releases locked [] = 0
releases locked (call_lock ∷ cs) = releases true cs
releases true (call_unlock ∷ cs) = suc (releases false cs)
releases false (call_unlock ∷ cs) = releases false cs

releases-acquires :
    (locked : Bool) (cs : List GuardCall)
    → releases locked cs + bit (ends_locked locked cs) ≡ acquires locked cs + bit locked
unfolding releases acquires ends_locked
releases-acquires locked [] = omega arith
releases-acquires false (call_lock ∷ cs) = ground (arith, releases-acquires true cs)
releases-acquires true (call_lock ∷ cs) = releases-acquires true cs
releases-acquires false (call_unlock ∷ cs) = releases-acquires false cs
releases-acquires true (call_unlock ∷ cs) = ground (arith, releases-acquires false cs)

module _ {ℓ} {T : Type ℓ} (acquire release : T → T) where
  -- A guard has acquired and released `k` times, and holds the mutex if it is locked.
  abbrev stage : ℕ → Bool → T → T × Bool
  stage k locked t =
      (if locked then acquire (cycles acquire release k t) else cycles acquire release k t, locked)

  run_guard_lem :
      (cs : List GuardCall) (k : ℕ) (locked : Bool) (t : T)
      → (n : ℕ) × (run_guard acquire release cs (stage k locked t)
          ≡ stage n (ends_locked locked cs) t)
        × (n ≡ k + releases locked cs)
  unfolding run_guard lock_guard unlock_guard releases ends_locked cycles
  run_guard_lem [] k locked t = (k, refl, omega arith)
  run_guard_lem (call_lock ∷ cs) k false t = run_guard_lem cs k true t
  run_guard_lem (call_lock ∷ cs) k true t = run_guard_lem cs k true t
  run_guard_lem (call_unlock ∷ cs) k false t = run_guard_lem cs k false t
  run_guard_lem (call_unlock ∷ cs) k true t =
      let (n, e, q) = run_guard_lem cs (suc k) false t in (n, e, omega (arith, q))

  unlock_last :
      (locked : Bool) (n k : ℕ) (t : T)
      → n + bit locked ≡ suc k
      → (unlock_guard acquire release (stage n locked t)).0 ≡ cycles acquire release (suc k) t
  unfolding unlock_guard cycles
  unlock_last true n k t h =
      let e : n ≡ k = omega (arith, h) in ap (λ j. release (acquire (cycles acquire release j t))) e
  unlock_last false n k t h =
      let e : n ≡ suc k = omega (arith, h) in ap (λ j. cycles acquire release j t) e

  -- Calls on a guard, from its constructor on: it holds the mutex just if the last call on it was
  -- not `unlock`; the mutex has been acquired once by the constructor and once by each `lock` of
  -- a guard that was not locked, and has been released after each of these but the one that holds.
  -- The destructor leaves it released as often as acquired.
  pub guard_lem :
      (cs : List GuardCall) (t : T)
      → (n : ℕ) × (run_guard acquire release cs (new_guard acquire release t)
          ≡ stage n (ends_locked true cs) t)
        × (n + bit (ends_locked true cs) ≡ suc (acquires true cs))
        × (with_guard acquire release cs t ≡ cycles acquire release (suc (acquires true cs)) t)
  unfolding new_guard with_guard cycles
  guard_lem cs t =
      let (n, e, q) = run_guard_lem cs 0 true t in
      let total : n + bit (ends_locked true cs) ≡ suc (acquires true cs) =
        omega (arith, q, releases-acquires true cs) in
      (
        n,
        e,
        total,
        ap (λ g. (unlock_guard acquire release g).0) e
            ∙ unlock_last (ends_locked true cs) n (acquires true cs) t total,
      )
