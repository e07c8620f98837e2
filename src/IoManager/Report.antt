-- ===== src/IoManager/Report.antt =====
-- `IOManager::idle`: what it does for one `epoll_event` of a descriptor.
use custom_net_framework.Prelude.{
  ℕ, not, Option, none, some, ◌==◌, if◌then◌else◌, get_elem?, bit_or, bit_and, and_not,
}
use custom_net_framework.IoManager.Events.{read_event, write_event, code, has_event}
use custom_net_framework.IoManager.Context.{FdContext}
use custom_net_framework.IoManager.{del, Epoll, next_op, ctl_call, trigger_if}
use custom_net_framework.IoManager.{epoll_in, epoll_out, epoll_err_hup, epoll_et, Io}

-- The events that one `epoll_event` of the idle loop stands for, on a context that waits for
-- `events`: an error or a hang-up counts as all of them.
unfoldable pub real_events : ℕ → ℕ → ℕ
real_events reported events =
    let seen =
      if bit_and reported epoll_err_hup == 0
      then reported
      else bit_or reported (bit_and (bit_or epoll_in epoll_out) events) in
    bit_or (if bit_and seen epoll_in == 0 then 0 else code read_event)
      (if bit_and seen epoll_out == 0 then 0 else code write_event)

module _ (E : Epoll) where
  -- The body of the idle loop for one `epoll_event` of a descriptor, with the events it stands for.
  unfoldable pub handle_events : Io E → ℕ → FdContext → ℕ → Option (Io E)
  unfolding trigger_if
  handle_events io fd c real =
      let left = and_not c.events real in
      let r = ctl_call E io (next_op left del) fd (bit_or epoll_et left) in
      if bit_and c.events real == 0
      then some io
      else if not r.1
      then some r.0
      else elim (trigger_if E (has_event real read_event) r.0 fd c read_event) [
        | none ↦ none
        | some (io', c') ↦ elim (trigger_if E (has_event real write_event) io' fd c' write_event) [
          | none ↦ none
          | some (io'', _) ↦ some io''
        ]
      ]

  -- The same, from the mask that `epoll_wait` reported for the context at `fd`.
  unfoldable pub handle_report : Io E → ℕ → ℕ → Option (Io E)
  unfolding handle_events real_events
  handle_report io fd reported = elim (get_elem? io.fd_contexts fd) [
    | none ↦ none
    | some c ↦ handle_events io fd c (real_events reported c.events)
  ]
