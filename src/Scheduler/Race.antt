-- ===== src/Scheduler/Race.antt =====
-- What the statements of `Scheduler::run` after it has unlocked the queue allow.
use custom_net_framework.Prelude.{
  ℕ, ◌<◌, ◌≡◌, refl, true, false, some, List, ◌∷◌, arith, ◌==◌, update, is_empty, not, u64, ◌+◌,
}
use custom_net_framework.Fiber.{is_exec, is_over}
use custom_net_framework.Scheduler.{Task, Shared, Picked, pick, fiber_task}
use custom_net_framework.Scheduler.System.{
  Place, top, chose, entering, switching, inside, Move, takes, starts, asserts, switches, System,
  moves, Reach, next,
}

-- A task for a fiber that is not running, at the head of the queue.
pick_head :
    (i f : ℕ) (s : Shared) (rest : List Task)
    → is_exec (s.state f) ≡ false
    → s.fibers ≡ fiber_task f ∷ rest
    → (p : Picked) × (pick i s.state s.fibers ≡ some p)
      × (p.task ≡ some (fiber_task f))
      × (p.rest ≡ rest)
unfolding pick
pick_head i f s rest idle e = (
  record { task = some (fiber_task f); rest = rest; tickle_me = not (is_empty rest) },
  ground (arith, idle, e),
  refl,
  refl,
)

-- A worker's step, from where it stands.
go :
    {n : ℕ} {σ : System} (i : ℕ) {p q : Place} {s : Shared}
    → Reach n σ
    → i < n
    → σ.pc i ≡ p
    → Move i (σ.shared) p s q
    → Reach n (record { shared = s; pc = update σ.pc i q })
go i r l at m = next r (moves i l at m)

-- Two threads take their turns on the two tasks of a fiber, step by step.
module _ {n : ℕ} (i j f : ℕ) (li : i < n) (lj : j < n) (apart : (i == j) ≡ false) where
  same_i : (i == i) ≡ true
  same_i = ground arith

  same_j : (j == j) ≡ true
  same_j = ground arith

  other : (j == i) ≡ false
  other = ground (arith, apart)

  -- Both threads at one place go on to another, without a change of what they share.
  both :
      {σ : System} {p q : Place}
      → Reach n σ
      → σ.pc i ≡ p
      → σ.pc j ≡ p
      → Move i (σ.shared) p (σ.shared) q
      → Move j (σ.shared) p (σ.shared) q
      → Reach n (record { shared = σ.shared; pc = update (update σ.pc i q) j q })
  both {σ} {p} {q} r at_i at_j m m' = go j (go i r li at_i m) lj (ground (arith, apart, at_j)) m'

  placed_i : (pc : ℕ → Place) (q : Place) → update (update pc i q) j q i ≡ q
  placed_i pc q = ground (arith, same_i, other)

  placed_j : (pc : ℕ → Place) (q q' : Place) → update (update pc i q) j q' j ≡ q'
  placed_j pc q q' = ground (arith, same_j)

  -- In a reachable state in which two tasks for one fiber are at the head of the queue, the fiber
  -- does not run and is not over, and two threads are at the top of their loop: both can take a
  -- task, pass the tests and the assertion of `swapIn`, and run the fiber at the same time.
  pub fiber_twice :
      {σ : System} (rest : List Task)
      → Reach n σ
      → σ.pc i ≡ top
      → σ.pc j ≡ top
      → is_exec (σ.shared.state f) ≡ false
      → is_over (σ.shared.state f) ≡ false
      → σ.shared.fibers ≡ fiber_task f ∷ fiber_task f ∷ rest
      → (τ : System) × Reach n τ
        × (τ.pc i ≡ inside f false)
        × (τ.pc j ≡ inside f false)
        × (τ.shared.fibers ≡ rest)
  fiber_twice {σ} rest r at_i at_j idle alive q =
      let (p, e, t, kept) = pick_head i f (σ.shared) (fiber_task f ∷ rest) idle q in
      let r1 = go i r li at_i (takes e t) in
      let s1 : Shared = record (σ.shared) {
        fibers = p.rest;
        active_thread_count = u64 (σ.shared.active_thread_count + 1);
      } in
      let (p', e', t', kept') = pick_head j f s1 rest idle kept in
      let r2 = go j r1 lj (ground (arith, apart, at_j)) (takes e' t') in
      let took = update (update σ.pc i (chose (fiber_task f))) j (chose (fiber_task f)) in
      let usable : not (is_over (σ.shared.state f)) ≡ true = ground (arith, alive) in
      let r3 =
        both r2 (placed_i σ.pc (chose (fiber_task f)))
          (placed_j σ.pc (chose (fiber_task f)) (chose (fiber_task f))) (starts refl usable)
          (starts refl usable) in
      let r4 =
        both r3 (placed_i took (entering f false))
          (placed_j took (entering f false) (entering f false)) (asserts idle) (asserts idle) in
      let before = update (update took i (entering f false)) j (entering f false) in
      let ready_i = placed_i before (switching f false) in
      let ready_j = placed_j before (switching f false) (switching f false) in
      let r5 = go i r4 li ready_i switches in
      let r6 = go j r5 lj (ground (arith, apart, ready_j)) switches in
      (
        _,
        r6,
        placed_i (update (update before i (switching f false)) j (switching f false))
            (inside f false),
        placed_j (update (update before i (switching f false)) j (switching f false))
            (inside f false) (inside f false),
        kept',
      )
