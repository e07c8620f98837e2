-- ===== src/Scheduler/Queue.antt =====
-- The search of `Scheduler::run`: which task a thread takes, and what happens to the others.
use custom_net_framework.Prelude.{
  ℕ, ◌≡◌, refl, ap, inl, inr, Bool, true, false, not, ◌&&◌, ◌||◌, none, some, List, [], ◌∷◌, ◌++◌,
  arith, is_empty, All, Bool-cases,
}
use custom_net_framework.Fiber.{State}
use custom_net_framework.Scheduler.{Task, is_task, is_bound_elsewhere, is_running, Picked, pick}

-- Every entry of the queue is a fiber or a callback.
abbrev pub IsQueue : List Task → Type 0
IsQueue q = All (λ t. is_task t ≡ true) q

abbrev pub takes : ℕ → (ℕ → State) → Task → Bool
takes self state t = not (is_bound_elsewhere self t) && not (is_running state t)

abbrev pub has_bound : ℕ → List Task → Bool
has_bound self [] = false
has_bound self (t ∷ ts) = is_bound_elsewhere self t || has_bound self ts

-- What a search of the queue `q` by thread `self` is to find.
pub data IsPick (self : ℕ) (state : ℕ → State) (q : List Task) (p : Picked) : Type 0 where
  nothing :
      p.task ≡ none
      → p.rest ≡ q
      → All (λ t. takes self state t ≡ false) q
      → p.tickle_me ≡ has_bound self q
      → IsPick self state q p
  first :
      (before : List Task) (t : Task) (after : List Task)
      → q ≡ before ++ t ∷ after
      → p.task ≡ some t
      → p.rest ≡ before ++ after
      → All (λ u. takes self state u ≡ false) before
      → takes self state t ≡ true
      → p.tickle_me ≡ (has_bound self before || not (is_empty after))
      → IsPick self state q p

module _ (self : ℕ) (state : ℕ → State) where
  pass-IsPick :
      (t : Task) (ts : List Task) (p : Picked)
      → takes self state t ≡ false
      → IsPick self state ts p
      → IsPick self state
          (t ∷ ts)
          (record p { rest = t ∷ p.rest; tickle_me = is_bound_elsewhere self t || p.tickle_me })
  pass-IsPick t ts p no_take (nothing e r a w) = nothing e (ap (◌∷◌ t) r) (no_take, a) (rw w)
  pass-IsPick t ts p no_take (first before u after q e r a y w) =
      first (t ∷ before) u after (ap (◌∷◌ t) q) e (ap (◌∷◌ t) r) (no_take, a) y (ground arith)

  -- A search of a queue of proper tasks never fails an assertion. It takes the first task that is not
  -- bound to another thread and whose fiber is not running, leaves the others in order, and asks for
  -- another thread to be woken just if it passed a task bound elsewhere or left one behind the taken.
  pub pick_lem :
      (q : List Task)
      → IsQueue q
      → (p : Picked) × (pick self state q ≡ some p) × IsPick self state q p
  unfolding pick
  pick_lem [] v =
      (record { task = none; rest = []; tickle_me = false }, refl, nothing refl refl tt refl)
  pick_lem (t ∷ ts) v =
      let (p, e, is_pick) = pick_lem ts v.1 in
      elim (Bool-cases (is_bound_elsewhere self t)) [
        | inl bound ↦ (
          record p { rest = t ∷ p.rest; tickle_me = is_bound_elsewhere self t || p.tickle_me },
          ground arith,
          pass-IsPick t ts p (ground arith) is_pick,
        )
        | inr free ↦ elim (Bool-cases (is_running state t)) [
          | inl busy ↦ (
            record p { rest = t ∷ p.rest; tickle_me = is_bound_elsewhere self t || p.tickle_me },
            ground (arith, v.0),
            pass-IsPick t ts p (ground arith) is_pick,
          )
          | inr ready ↦ (
            record { task = some t; rest = ts; tickle_me = not (is_empty ts) },
            ground (arith, v.0),
            first [] t ts refl refl refl tt (ground arith) refl,
          )
        ]
      ]
