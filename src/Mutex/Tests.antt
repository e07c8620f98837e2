-- ===== src/Mutex/Tests.antt =====
-- Guards and a CASLock in use.
use custom_net_framework.Prelude.{ℕ, suc, ◌+◌, ◌≡◌, true, List, [], ◌∷◌, bit, if◌then◌else◌}
use custom_net_framework.Mutex.{
  GuardCall, call_lock, call_unlock, new_guard, run_guard, with_guard, turns,
}
use custom_net_framework.Mutex.Guards.{cycles, acquires, ends_locked, guard_lem}
use custom_net_framework.Mutex.Exclusion.{start, inside, Moves, exclusion_lem}

abbrev twice : List GuardCall
twice = call_unlock ∷ call_unlock ∷ call_lock ∷ []

-- A mutex that counts its locks and its unlocks.
abbrev add_lock : ℕ × ℕ → ℕ × ℕ
add_lock (a, b) = (suc a, b)

abbrev add_unlock : ℕ × ℕ → ℕ × ℕ
add_unlock (a, b) = (a, suc b)

guard_lem_example :
    (n : ℕ) × (run_guard add_lock add_unlock twice (new_guard add_lock add_unlock (0, 0)) ≡ (
      (if ends_locked true twice
          then add_lock (cycles add_lock add_unlock n (0, 0))
          else cycles add_lock add_unlock n (0, 0)),
      ends_locked true twice,
    ))
    × (n + bit (ends_locked true twice) ≡ suc (acquires true twice))
    × (with_guard add_lock add_unlock twice (0, 0)
        ≡ cycles add_lock add_unlock (suc (acquires true twice)) (0, 0))
guard_lem_example = guard_lem add_lock add_unlock twice (0, 0)

abbrev two_threads : List (List (List GuardCall))
two_threads = (twice ∷ []) ∷ ([] ∷ []) ∷ []

exclusion_lem_example :
    let w = turns (0 ∷ 1 ∷ 0 ∷ 1 ∷ []) (start two_threads) in (inside w.1 ≡ bit w.0) × Moves w
exclusion_lem_example = exclusion_lem two_threads (0 ∷ 1 ∷ 0 ∷ 1 ∷ [])
