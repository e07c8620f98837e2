-- ===== src/Fiber/Machine.antt =====
-- Which changes of state a fiber can go through, and what holds of it along the way.
use custom_net_framework.Prelude.{
  ◌≡◌, refl, Option, some, none, ℕ, true, false, arith, inl, u64, sub64, ◌+◌, ◌<◌, ◌^◌, ◌%◌, ◌==◌,
  if◌then◌else◌, ◌↔◌, ◌⊎◌,
}
use custom_net_framework.Fiber.{
  init, hold, exec, term, ready, Fiber, reset, swap_in, yield_to_ready, finish, park, End, Counters,
  call, new_fiber, destroy, is_resettable, is_exec, is_over, returned, thrown,
}

-- One change of a fiber with a stack of its own, as `Scheduler::run`, a caller or the fiber itself makes it.
pub data Step (f : Fiber) : Fiber → Type 0 where
  enters : {g : Fiber} → is_over f.state ≡ false → swap_in f ≡ some g → Step f g
  calls : Step f (call f)
  readies : {g : Fiber} → yield_to_ready f ≡ some g → Step f g
  parks : is_exec f.state ≡ true → Step f (park f)
  ends : is_exec f.state ≡ true → (e : End) → Step f (finish f e)
  resets : {g : Fiber} (cb : Option ℕ) → reset f cb ≡ some g → Step f g

pub data Reach (f : Fiber) : Fiber → Type 0 where
  here : Reach f f
  next : {g h : Fiber} → Reach f g → Step g h → Reach f h

-- A finished fiber holds no callback, and its identity and its stack do not change.
pub record Inv (id size : ℕ) (f : Fiber) : Type 0 where
  pub stacked : f.stack ≡ true
  pub named : f.id ≡ id
  pub sized : f.stack_size ≡ size
  pub released : f.state ≡ term → f.cb ≡ none

Step-Inv : {id size : ℕ} {f g : Fiber} → Step f g → Inv id size f → Inv id size g
unfolding swap_in call yield_to_ready park finish reset
Step-Inv (enters o e) v = ground arith
Step-Inv calls v = ground arith
Step-Inv (readies e) v = ground arith
Step-Inv (parks e) v = ground arith
Step-Inv (ends e returned) v = ground arith
Step-Inv (ends e thrown) v = ground arith
Step-Inv (resets cb e) v = ground arith

pub Reach-Inv : {id size : ℕ} {f g : Fiber} → Inv id size f → Reach f g → Inv id size g
Reach-Inv v here = v
Reach-Inv v (next r st) = Step-Inv st (Reach-Inv v r)

-- A fiber is entered by swapIn from INIT, HOLD and READY, and by call from any state; it runs until
-- it yields or ends; after its end it can only be called or reset.
pub fiber_edges :
    {f g : Fiber}
    → Step f g
    → (g ≡ call f)
      ⊎ ((is_exec f.state ≡ false) × (is_over f.state ≡ false) × (g.state ≡ exec))
      ⊎ ((is_exec f.state ≡ true)
          × ((g.state ≡ ready) ⊎ (g.state ≡ hold) ⊎ (is_over g.state ≡ true)))
      ⊎ ((is_resettable f.state ≡ true) × (g.state ≡ init))
unfolding swap_in call yield_to_ready park finish reset
fiber_edges (enters o e) = ground arith
fiber_edges calls = inl refl
fiber_edges (readies e) = ground arith
fiber_edges (parks e) = ground arith
fiber_edges (ends e returned) = ground arith
fiber_edges (ends e thrown) = ground arith
fiber_edges (resets cb e) = ground arith

new_fiber-Inv :
    (c : Counters) (configured : ℕ) (cb : Option ℕ) (stack_size : ℕ)
    → let f = (new_fiber c configured cb stack_size).1 in Inv f.id f.stack_size f
unfolding new_fiber
new_fiber-Inv c configured cb stack_size = record {
  stacked = refl;
  named = refl;
  sized = refl;
  released = λ e. cc;
}

-- A fiber with a stack of its own, made when the count of fibers fits uint64_t, after any calls of
-- swapIn while it is not over, of call in any state, of YieldToReady and of reset, any assignments of
-- HOLD to it while it is in EXEC, and any ends of its callback while it is in EXEC: it keeps
-- the id and the stack size that it was made with, the size cut to 32 bits; it holds no callback
-- when it is in TERM. While it is in HOLD, EXEC or READY, its destructor fails an assertion, and
-- in any other state it gives back to the count of fibers what the constructor has added.
pub fiber_lifecycle :
    (c : Counters) (configured : ℕ) (cb : Option ℕ) (stack_size : ℕ) {g : Fiber}
    → c.fiber_count < 2 ^ 64
    → let made = new_fiber c configured cb stack_size in
      Reach made.1 g
      → (g.id ≡ u64 (c.fiber_id + 1))
        × (g.stack_size ≡ (if stack_size == 0 then configured else stack_size % 2 ^ 32))
        × (g.state ≡ term → g.cb ≡ none)
        × ((destroy made.0 g ≡ none)
            ⊎ (destroy made.0 g ≡ some (record { fiber_id = g.id; fiber_count = c.fiber_count })))
        × ((destroy made.0 g ≡ none) ↔ ((g.state ≡ hold) ⊎ (g.state ≡ exec) ⊎ (g.state ≡ ready)))
unfolding new_fiber destroy
fiber_lifecycle c configured cb stack_size {g} b r =
    let v = Reach-Inv (new_fiber-Inv c configured cb stack_size) r in
    let back : sub64 (u64 (c.fiber_count + 1)) 1 ≡ c.fiber_count = omega (arith, b) in
    (
      v.named,
      v.sized,
      v.released,
      ground (arith, v.stacked, v.named, back),
      (λ e. ground (arith, v.stacked), λ e. ground (arith, v.stacked)),
    )
