-- ===== src/Hook/Retry.antt =====
-- `do_io` as a whole: its retries, with what other threads do while the fiber waits.
pub mod Ending
use custom_net_framework.Prelude.{
  ℕ, ◌≡◌, ◌≢◌, Bool, true, false, not, ◌&&◌, Option, none, some, List, [], ◌∷◌, ◌==◌, ==_iff,
  if◌then◌else◌, has, max_u64, All, arith, refl, ap, ◌∙◌, inl, inr, Bool-cases, Option-cases,
  contains,
}
use custom_net_framework.Fiber.{State, is_exec}
use custom_net_framework.Timer.{TimerManager, add_condition_timer}
use custom_net_framework.Timer.Steps.{Reach}
use custom_net_framework.IoManager.Events.{Event, has_event}
use custom_net_framework.IoManager.Books.{events_at}
use custom_net_framework.IoManager.Mirror.{Inv}
use custom_net_framework.IoManager.{Epoll, IoManager, add_event}
use custom_net_framework.FdManager.{FdCtx, Direction}
use custom_net_framework.Hook.{
  World, cancel_timer, Result, value, failed, direct, bad_descriptor, managed, start_io, call,
  would_block, eagain, etimedout, Wait, await_io, resume_io,
}
use custom_net_framework.Hook.Io.{is_interrupt, await_io_lem, resume_io_lem}

-- The errno of a closed descriptor.
abbrev pub ebadf : ℕ
ebadf = 9

-- How a call of `do_io` stands: it has returned a result, it has returned -1 since `addEvent` failed,
-- or it still waits or calls.
pub data Ended : Type 0 where
  returned : Result → Ended
  refused : Ended
  suspended : Ended

module _ (E : Epoll) where
  -- What comes to pass in one turn of `retry`: the results of the original calls, the time and the
  -- address of the timer, whether the timer fires before the fiber runs again, and what else has
  -- happened to the manager and its timers by then.
  pub record Turn : Type 0 where
    pub results : List Result
    pub now : ℕ
    pub address : TimerManager → ℕ
    pub state : State
    pub fires : Bool
    pub meanwhile : World E → World E

  -- The timer_info, when the fiber runs again.
  abbrev pub woken : Turn → Wait → Wait
  woken t w = if t.fires && has w.timer then record w { cancelled = etimedout } else w

  -- From `retry` on.
  pub retry :
      (timeout cb weak fd : ℕ)
      → Event
      → (scheduler fiber : ℕ) → List Turn
      → World E
      → Option (World E × Ended)
  unfolding call await_io resume_io
  retry timeout cb weak fd e scheduler fiber [] w = some (w, suspended)
  retry timeout cb weak fd e scheduler fiber (t ∷ ts) w = elim (call t.results) [
    | none ↦ some (w, suspended)
    | some (x, rest) ↦ elim (would_block x) [
      | false ↦ some (w, returned x)
      | true ↦
          elim (await_io E w t.now (t.address w.1) timeout cb weak fd e scheduler fiber t.state) [
            | none ↦ none
            | some (w', none) ↦ some (w', refused)
            | some (w', some wait) ↦
                let v = t.meanwhile w' in
                elim (resume_io E v.1 (woken t wait)) [
                  | none ↦ none
                  | some (m, some err) ↦ some ((v.0, m), returned err)
                  | some (m, none) ↦ retry timeout cb weak fd e scheduler fiber ts (v.0, m)
                ]
          ]
    ]
  ]

  -- `do_io`; `first` is the result of the original call where it is the only one.
  pub do_io :
      Bool
      → Option FdCtx
      → Direction
      → (first : Result) → (cb weak fd : ℕ) → Event
      → (scheduler fiber : ℕ) → List Turn
      → World E
      → Option (World E × Ended)
  unfolding start_io retry
  do_io hooked ctx way first cb weak fd e scheduler fiber ts w = elim (start_io hooked ctx way) [
    | direct ↦ some (w, returned first)
    | bad_descriptor ↦ some (w, returned (failed ebadf))
    | managed timeout ↦ retry timeout cb weak fd e scheduler fiber ts w
  ]
