-- ===== src/Hook/Connect.antt =====
-- `connect_with_timeout` in hook.cpp.
use custom_net_framework.Prelude.{
  ℕ, zero, suc, ◌≡◌, ◌≢◌, ◌↔◌, Bool, true, false, not, ◌||◌, Option, none, some, ◌==◌,
  if◌then◌else◌, arith, refl, contains, Bool-cases, inl, inr,
}
use custom_net_framework.Timer.{TimerManager}
use custom_net_framework.Timer.Steps.{Reach}
use custom_net_framework.IoManager.{Epoll}
use custom_net_framework.FdManager.{FdCtx}
use custom_net_framework.Hook.{
  Result, value, failed, Start, direct, bad_descriptor, managed, Wait, resume_io,
}
use custom_net_framework.Hook.Io.{resume_io_lem}

abbrev pub einprogress : ℕ
einprogress = 115

-- How `connect_with_timeout` begins.
pub start_connect : Bool → Option FdCtx → (timeout_ms : ℕ) → Start
start_connect false ctx timeout_ms = direct
start_connect true none timeout_ms = bad_descriptor
start_connect true (some c) timeout_ms =
    if c.is_closed
    then bad_descriptor
    else if not c.is_socket || c.user_nonblock
    then direct
    else managed timeout_ms

-- After the original call on a managed socket: its result, or nothing if it is to wait.
pub after_connect : Result → Option Result
after_connect (value n) = some (value n)
after_connect (failed e) = if e == einprogress then none else some (failed e)

-- After the wait, or after `addEvent` has failed: SO_ERROR, or the errno with which getsockopt fails.
pub connect_result : Result → Result
connect_result (value zero) = value 0
connect_result (value (suc error)) = failed (suc error)
connect_result (failed e) = failed e

connect_result-zero : (s : Result) → (connect_result s ≡ value 0) ↔ (s ≡ value 0)
unfolding connect_result
connect_result-zero (value zero) = ground arith
connect_result-zero (value (suc error)) = ground arith
connect_result-zero (failed e) = ground arith

module _ (E : Epoll) where
  -- When the fiber runs again.
  pub finish_connect : TimerManager → Wait → Result → Option (TimerManager × Result)
  unfolding connect_result
  finish_connect m w so_error = elim (resume_io E m w) [
    | none ↦ none
    | some (m', some r) ↦ some (m', r)
    | some (m', none) ↦ some (m', connect_result so_error)
  ]

  -- When the fiber that waits in `connect` runs again, with timers that keep their invariant, its
  -- timer is cancelled. `connect` returns 0 just if the timeout has not fired and getsockopt
  -- reports no error; after the timeout it fails with the errno that the timer's callback left.
  pub finish_connect_lem :
      {start : ℕ} {m : TimerManager} (w : Wait) (so_error : Result)
      → Reach start m
      → (m' : TimerManager) × (r : Result) × (finish_connect m w so_error ≡ some (m', r))
        × Reach start m'
        × ((p : ℕ) → w.timer ≡ some p → contains p m'.timers ≡ false)
        × ((r ≡ value 0) ↔ ((w.cancelled ≡ 0) × (so_error ≡ value 0)))
        × (w.cancelled ≢ 0 → r ≡ failed w.cancelled)
        × (w.cancelled ≡ 0 → r ≡ connect_result so_error)
  unfolding finish_connect connect_result
  finish_connect_lem w so_error r =
      let (m', e, r', gone) = resume_io_lem E w r in
      elim (Bool-cases (w.cancelled == 0)) [
        | inl y ↦ (
          m',
          connect_result so_error,
          ground (arith, e, y),
          r',
          gone,
          ground (arith, y, connect_result-zero so_error),
          λ ne. absurd (ground (arith, y, ne)),
          λ _. refl,
        )
        | inr n ↦ (
          m',
          failed w.cancelled,
          ground (arith, e, n),
          r',
          gone,
          ground (arith, n),
          λ _. refl,
          λ z. absurd (ground (arith, n, z)),
        )
      ]
