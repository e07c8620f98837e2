-- ===== src/IoManager/Round.antt =====
-- `IOManager::idle`: one round of its loop, up to `swapOut`.
pub mod Fresh
pub mod Safe
mod Tests
use custom_net_framework.Prelude.{
  ℕ, zero, suc, ◌≡◌, ◌≢◌, ◌⊎◌, inl, inr, refl, sym, ap, ◌∙◌, arith, Bool, true, false, not, Option,
  none, some, List, [], ◌∷◌, ◌++◌, ◌==◌, if◌then◌else◌, u32, max_u64, All, get_elem?, contains,
  is_empty, Option-cases, Bool-cases, and_not, is_empty,
}
use custom_net_framework.Timer.{TimerManager, list_expired_cb, list_expired_locked, get_next_timer}
use custom_net_framework.Timer.Set.{Callback}
use custom_net_framework.Timer.Steps.{Reach}
use custom_net_framework.Scheduler.{Shared, Task}
use custom_net_framework.IoManager.Events.{Event, has_event}
use custom_net_framework.IoManager.Context.{FdContext}
use custom_net_framework.IoManager.Books.{events_at}
use custom_net_framework.IoManager.Mirror.{Inv}
use custom_net_framework.IoManager.{Epoll, IoManager}
use custom_net_framework.IoManager.Report.{real_events, handle_report}
use custom_net_framework.IoManager.Poll.{stopping, max_timeout, is_above, poll_timeout}

-- An epoll_event: of the pipe that wakes the manager, or of a descriptor, with the mask.
pub data Report : Type 0 where
  of_pipe : Report
  of_fd : (fd reported : ℕ) → Report

-- `next_timeout` in the loop around epoll_wait.
pub clamp : ℕ → ℕ
clamp n = if not (n == max_u64) then (if is_above n then max_timeout else n) else max_timeout

-- That loop: the timeouts it passes and what the last call reports. A call that is interrupted is
-- `none`; one that fails otherwise reports nothing.
unfoldable pub poll : ℕ → List (Option (List Report)) → Option (List ℕ × List Report)
unfolding clamp
poll n [] = none
poll n (r ∷ rs) =
    let n' = clamp n in
    let rest = poll n' rs in
    elim r [
      | some reports ↦ some (u32 n' ∷ [], reports)
      | none ↦ elim rest [ none ↦ none | some (args, reports) ↦ some (u32 n' ∷ args, reports) ]
    ]

module _ (E : Epoll) where
  -- The loop over the reports.
  pub handle_all : IoManager (E.State) → List Report → Option (IoManager (E.State))
  handle_all io [] = some io
  handle_all io (of_pipe ∷ rs) = handle_all io rs
  handle_all io (of_fd fd reported ∷ rs) = elim (handle_report E io fd reported) [
    | none ↦ none
    | some io' ↦ handle_all io' rs
  ]

  -- `schedule(cbs.begin(), cbs.end())`, where the scheduler gets the task `own cb` for a callback. An
  -- empty function is not queued.
  pub schedule_callbacks :
      (Callback → ℕ × Task) → IoManager (E.State) → List (Option Callback) → IoManager (E.State)
  schedule_callbacks own io [] = io
  schedule_callbacks own io (none ∷ cbs) = schedule_callbacks own io cbs
  schedule_callbacks own io (some cb ∷ cbs) =
      schedule_callbacks own (record io { scheduled = io.scheduled ++ (own cb ∷ []) }) cbs

  -- A round leaves the loop, still waits in epoll, or yields, with the callbacks of timers that had
  -- expired and the timeouts that it has passed to epoll.
  pub data Round : Type 0 where
    exits : TimerManager → Round
    polls : Round
    yields : IoManager (E.State) → TimerManager → List (Option Callback) → List ℕ → Round

  -- `meanwhile` is what other threads do while it waits, `between` what they do between the locks
  -- of listExpiredCb.
  pub idle_round :
      (own : Callback → ℕ × Task)
      (meanwhile : IoManager (E.State) × TimerManager → IoManager (E.State) × TimerManager)
      (between : TimerManager → TimerManager)
      → Shared
      → (asked now q : ℕ) → List (Option (List Report))
      → IoManager (E.State)
      → TimerManager
      → Option Round
  unfolding poll handle_all schedule_callbacks
  idle_round own meanwhile between s asked now q results io m =
      let stop = stopping m asked io.pending_event_count s in
      if stop.1 then some (exits stop.0.0) else elim (poll stop.0.1 results) [
        | none ↦ some polls
        | some (args, reports) ↦
            let w = meanwhile (io, stop.0.0) in
            elim (list_expired_cb between w.1 now q) [
              | none ↦ none
              | some (m', cbs) ↦ elim (handle_all (schedule_callbacks own w.0 cbs) reports) [
                | none ↦ none
                | some io' ↦ some (yields io' m' cbs args)
              ]
            ]
      ]
