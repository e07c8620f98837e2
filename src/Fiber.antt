-- ===== src/Fiber.antt =====
-- sylar/sylar/fiber.h and fiber.cpp: the state machine of a fiber. Contexts and stacks are the
-- system's (`ucontext`, `malloc`): the model keeps which fiber runs and whether a stack was given.
-- A failed SYLAR_ASSERT is `none`.
pub mod Machine
mod Tests
use custom_net_framework.Prelude.{
  ℕ, zero, suc, ◌+◌, ◌-◌, Bool, true, false, not, ◌&&◌, ◌||◌, Option, none, some, ◌==◌,
  if◌then◌else◌, has, u32, u64, sub64, update,
}

-- `Fiber::State`.
pub data State : Type 0 where
  init hold exec term ready except : State

abbrev pub is_exec : State → Bool
is_exec exec = true
is_exec _ = false

abbrev pub is_ready : State → Bool
is_ready ready = true
is_ready _ = false

-- `TERM` or `EXCEPT`.
abbrev pub is_over : State → Bool
is_over term = true
is_over except = true
is_over _ = false

-- `TERM`, `EXCEPT` or `INIT`: the states in which a fiber may be reset or destroyed.
abbrev pub is_resettable : State → Bool
is_resettable term = true
is_resettable except = true
is_resettable init = true
is_resettable _ = false

pub record Fiber : Type 0 where
  pub id : ℕ
  pub stack_size : ℕ
  pub state : State
  pub stack : Bool
  pub cb : Option ℕ

-- The counters `s_fiber_id` and `s_fiber_count`.
pub record Counters : Type 0 where
  pub fiber_id : ℕ
  pub fiber_count : ℕ

-- `Fiber::Fiber()`, the fiber of a thread itself.
pub main_fiber : Counters → Counters × Fiber
main_fiber c = (
  record c { fiber_count = u64 (c.fiber_count + 1) },
  record { id = 0; stack_size = 0; state = exec; stack = false; cb = none },
)

-- `Fiber::Fiber(cb, stacksize)`, where `configured` is the value of `fiber.stack_size`.
pub new_fiber : Counters → ℕ → Option ℕ → ℕ → Counters × Fiber
new_fiber c configured cb stack_size =
    let next_id = u64 (c.fiber_id + 1) in
    (
      record { fiber_id = next_id; fiber_count = u64 (c.fiber_count + 1) },
      record {
        id = next_id;
        stack_size = if stack_size == 0 then configured else u32 stack_size;
        state = init;
        stack = true;
        cb = cb;
      },
    )

-- `Fiber::~Fiber`.
pub destroy : Counters → Fiber → Option Counters
destroy c f =
    let d = record c { fiber_count = sub64 c.fiber_count 1 } in
    if f.stack
    then (if is_resettable f.state then some d else none)
    else if not (has f.cb) && is_exec f.state
    then some d
    else none

-- `Fiber::reset`.
pub reset : Fiber → Option ℕ → Option Fiber
reset f cb =
    if f.stack && is_resettable f.state then some (record f { cb = cb; state = init }) else none

-- `Fiber::swapIn`, up to the switch.
pub swap_in : Fiber → Option Fiber
swap_in f = if is_exec f.state then none else some (record f { state = exec })

-- `Fiber::call`, up to the switch.
pub call : Fiber → Fiber
call f = record f { state = exec }

-- `Fiber::YieldToReady`, up to the switch.
pub yield_to_ready : Fiber → Option Fiber
yield_to_ready f = if is_exec f.state then some (record f { state = ready }) else none

-- `Fiber::YieldToHold`, up to the switch: the state stays `EXEC`.
pub yield_to_hold : Fiber → Option Fiber
yield_to_hold f = if is_exec f.state then some f else none

-- How the callback of `Fiber::MainFunc` or `CallerMainFunc` ends.
pub data End : Type 0 where
  returned thrown : End

-- `Fiber::MainFunc` and `CallerMainFunc`, when the callback has ended, up to the switch.
pub finish : Fiber → End → Fiber
finish f returned = record f { cb = none; state = term }
finish f thrown = record f { state = except }

-- The scheduler's assignment `m_state = HOLD` to a fiber that came back while running.
pub park : Fiber → Fiber
park f = record f { state = hold }
