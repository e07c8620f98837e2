-- ===== src/Hook/Calls.antt =====
-- The calls that are replaced by `do_io`, `socket`, and the whole of `connect_with_timeout`.
use custom_net_framework.Prelude.{
  ℕ, ◌≡◌, ◌≢◌, ◌⊎◌, inl, inr, arith, refl, ap, ◌∙◌, max_u64, Option-cases, Bool-cases, Bool, true,
  false, not, ◌&&◌, Option, none, some, List, ◌==◌,
}
use custom_net_framework.Timer.{TimerManager}
use custom_net_framework.IoManager.Events.{Event, read_event, write_event}
use custom_net_framework.IoManager.{Epoll, IoManager}
use custom_net_framework.FdManager.{Files, FdCtx, Direction, receive, send, get}
use custom_net_framework.Hook.{
  World, Result, value, failed, direct, bad_descriptor, managed, etimedout, await_io,
}
use custom_net_framework.IoManager.Events.{has_event}
use custom_net_framework.IoManager.Books.{events_at}
use custom_net_framework.IoManager.Mirror.{Inv}
use custom_net_framework.Timer.Steps.{Reach}
use custom_net_framework.Hook.Io.{await_io_lem}
use custom_net_framework.Hook.Retry.{Ended, returned, refused, suspended, Turn, woken, do_io, ebadf}
use custom_net_framework.Hook.Retry.Ending.{IsTurn, await_io-wait}
use custom_net_framework.Hook.Connect.{
  start_connect, after_connect, connect_result, finish_connect, finish_connect_lem,
}

-- The system calls that are passed to `do_io`.
pub data IoCall : Type 0 where
  call_accept call_read call_readv call_recv call_recvfrom call_recvmsg : IoCall
  call_write call_writev call_send call_sendto call_sendmsg : IoCall

-- The event that each waits for, and the socket option of its timeout.
pub call_event : IoCall → Event
call_event call_write = write_event
call_event call_writev = write_event
call_event call_send = write_event
call_event call_sendto = write_event
call_event call_sendmsg = write_event
call_event _ = read_event

pub call_timeout : IoCall → Direction
call_timeout call_write = send
call_timeout call_writev = send
call_timeout call_send = send
call_timeout call_sendto = send
call_timeout call_sendmsg = send
call_timeout _ = receive

module _ (E : Epoll) where
  -- `read`, `write` and the others.
  pub hooked_call :
      IoCall
      → Bool
      → Option FdCtx
      → (first : Result) → (cb weak fd scheduler fiber : ℕ) → List (Turn E)
      → World E
      → Option (World E × Ended)
  unfolding call_event call_timeout
  hooked_call c hooked ctx first cb weak fd scheduler fiber ts w =
      do_io E hooked ctx (call_timeout c) first cb weak fd (call_event c) scheduler fiber ts w

  -- `connect_with_timeout`; `first` is what the original connect returns, and `so_error` what
  -- getsockopt(SO_ERROR) returns after the wait.
  pub connect_with_timeout :
      Bool
      → Option FdCtx
      → (first so_error : Result) → (timeout_ms cb weak fd scheduler fiber : ℕ) → Turn E
      → World E
      → Option (World E × Result)
  connect_with_timeout hooked ctx first so_error timeout_ms cb weak fd scheduler fiber t w =
      elim (start_connect hooked ctx timeout_ms) [
        | direct ↦ some (w, first)
        | bad_descriptor ↦ some (w, failed ebadf)
        | managed timeout ↦ elim (after_connect first) [
          | some r ↦ some (w, r)
          | none ↦
              elim (await_io E w t.now (t.address w.1) timeout cb weak fd write_event scheduler
                fiber t.state) [
                  | none ↦ none
                  | some (w', none) ↦ some (w', connect_result so_error)
                  | some (w', some wait) ↦
                      let v = t.meanwhile w' in
                      elim (finish_connect E v.1 (woken E t wait) so_error) [
                        | none ↦ none
                        | some (m, r) ↦ some ((v.0, m), r)
                      ]
                ]
        ]
      ]

  -- A connect that has to wait, in states and a turn as for `do_io`: it returns the error of the
  -- socket, or, if its timer has fired, ETIMEDOUT.
  pub connect_with_timeout_lem :
      (start pipe timeout_ms timeout cb weak fd scheduler fiber : ℕ) (ctx : Option FdCtx)
      (first so_error : Result) (t : Turn E) (io : IoManager (E.State)) (m : TimerManager)
      → start_connect true ctx timeout_ms ≡ managed timeout
      → after_connect first ≡ none
      → IsTurn E start pipe fd write_event t
      → Inv E pipe io
      → Reach start m
      → has_event (events_at io.fd_contexts fd) write_event ≡ false
      → (io' : IoManager (E.State)) × (m' : TimerManager) × (r : Result) × (connect_with_timeout
            true ctx first so_error timeout_ms cb weak fd scheduler fiber t
            (io, m)
          ≡ some ((io', m'), r))
        × Inv E pipe io'
        × Reach start m'
        × ((r ≡ connect_result so_error)
            ⊎ ((r ≡ failed etimedout) × (t.fires ≡ true) × (timeout ≢ max_u64)))
  unfolding connect_with_timeout
  connect_with_timeout_lem start pipe timeout_ms timeout cb weak fd scheduler fiber ctx first
        so_error t io m s c turn v r h =
      let (io1, m1, w, run, v1, r1, _, _) =
        await_io_lem E pipe io m t.now (t.address m) timeout cb weak fd write_event scheduler fiber
          t.state v r h turn.runs (turn.fresh m).0 (turn.fresh m).1 in
      elim (Option-cases w) [
        | inl n ↦ (io1, m1, connect_result so_error, ground (arith, s, c, run, n), v1, r1, inl refl)
        | inr (wait, y) ↦
            let waited = run ∙ ap (λ o. some ((io1, m1), o)) y in
            let (idle, timed) =
              await_io-wait E (io, m) t.now (t.address m) timeout cb weak fd write_event scheduler
                fiber t.state (io1, m1) wait waited in
            let (v2, r2, _) = turn.keeps io1 m1 v1 r1 in
            let (m3, r3, fin, reach, _, _, late, soon) =
              finish_connect_lem E (woken E t wait) so_error r2 in
            (
              (t.meanwhile (io1, m1)).0,
              m3,
              r3,
              ground (arith, s, c, waited, fin),
              v2,
              reach,
              elim (Bool-cases (t.fires && not (timeout == max_u64))) [
                | inl o ↦ inr (ground (arith, late, idle, timed, o))
                | inr o ↦ inl (ground (arith, soon, idle, timed, o))
              ],
            )
      ]

module _ (F : Files) where
  -- `accept`, when its `do_io` has ended, with what other threads do between the locks of `get`;
  -- `none`: the table is not long enough for the new descriptor.
  pub after_accept :
      (F.State × List (Option FdCtx) → F.State × List (Option FdCtx))
      → F.State
      → List (Option FdCtx)
      → Ended
      → Option (F.State × List (Option FdCtx))
  after_accept between k datas (returned (value fd)) = elim (get F between k datas fd true) [
    | none ↦ none
    | some (x, _) ↦ some x
  ]
  after_accept between k datas (returned (failed e)) = some (k, datas)
  after_accept between k datas refused = some (k, datas)
  after_accept between k datas suspended = some (k, datas)

  -- `socket`, with what the original call returns.
  pub hooked_socket :
      (F.State × List (Option FdCtx) → F.State × List (Option FdCtx))
      → F.State
      → List (Option FdCtx)
      → Bool
      → Result
      → Option (F.State × List (Option FdCtx))
  hooked_socket between k datas false r = some (k, datas)
  hooked_socket between k datas true (failed e) = some (k, datas)
  hooked_socket between k datas true (value fd) = elim (get F between k datas fd true) [
    | none ↦ none
    | some (x, _) ↦ some x
  ]
