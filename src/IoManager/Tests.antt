-- ===== src/IoManager/Tests.antt =====
-- Runs of the IOManager on an epoll that keeps its interest list as a function.
use custom_net_framework.Prelude.{
  ℕ, ◌≡◌, refl, Bool, true, ◌&&◌, Option, none, some, [], arith, ◌==◌, if◌then◌else◌,
}
use custom_net_framework.IoManager.Events.{
  read_event, write_event, has_event, with_event, without_event,
}
use custom_net_framework.IoManager.Books.{events_at}
use custom_net_framework.IoManager.{IoManager, add_event, del_event}
use custom_net_framework.IoManager.Report.{real_events, handle_report}
use custom_net_framework.IoManager.{construct, fresh_contexts}
use custom_net_framework.IoManager.Context.{fresh_context}
use custom_net_framework.Fiber.{exec}
use custom_net_framework.IoManager.Mirror.{Inv}
use custom_net_framework.IoManager.Construct.{construct_lem}
use custom_net_framework.IoManager.Add.{add_event_lem, add_event_twice}
use custom_net_framework.IoManager.Delete.{Does, del_event_lem}
use custom_net_framework.IoManager.Idle.{handle_report_stale}
use custom_net_framework.IoManager.Sample.{table, new, reader, one, new-Inv, one-Inv}

construct_lem_example :
    (io : IoManager (ℕ → Option ℕ)) × (construct table (λ _. none) 3 ≡ some io)
    × Inv table 3 io
    × ((fd : ℕ) → events_at io.fd_contexts fd ≡ 0)
    × (io.scheduled ≡ [])
construct_lem_example = construct_lem table (λ _. none) 3 (λ _. refl) refl

add_event_lem_example :
    (io' : IoManager (ℕ → Option ℕ)) × (ok : Bool) × (add_event table new 5 read_event
        (some 7)
        1
        2
        exec
      ≡ some (io', ok))
    × Inv table 3 io'
    × ((j : ℕ)
        → events_at io'.fd_contexts j ≡ (
            if ok && (5 == j)
            then with_event (events_at new.fd_contexts 5) read_event
            else events_at new.fd_contexts j))
    × (io'.scheduled ≡ new.scheduled)
unfolding fresh_contexts fresh_context has_event
add_event_lem_example = add_event_lem table 3 new 5 read_event (some 7) 1 2 exec new-Inv refl refl

add_event_twice_example : add_event table one 5 read_event (some 8) 1 2 exec ≡ none
unfolding fresh_contexts fresh_context has_event
add_event_twice_example =
    add_event_twice table one 5 read_event (some 8) 1 2 exec (omega arith) refl

del_event_lem_example :
    let r = del_event table one 5 read_event in
    Does table 3 one r.0 r.1 5 (without_event (events_at one.fd_contexts 5) read_event) []
    × (r.1 ≡ true → has_event (events_at one.fd_contexts 5) read_event ≡ true)
del_event_lem_example = del_event_lem table 3 one 5 read_event one-Inv

-- EPOLLIN and EPOLLOUT for the reader, whose WRITE was deleted in between.
handle_report_stale_example : handle_report table one 5 5 ≡ none
unfolding fresh_contexts fresh_context has_event real_events
handle_report_stale_example =
    handle_report_stale table 3 one 5 reader 5 read_event write_event one-Inv refl refl refl refl
      refl refl
