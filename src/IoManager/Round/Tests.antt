-- ===== src/IoManager/Round/Tests.antt =====
-- A round in which epoll_wait is interrupted once, and then reports the pipe and a descriptor.
use custom_net_framework.Prelude.{
  ℕ, ◌≡◌, ◌↔◌, refl, sym, subst, arith, contains, true, false, Option, none, some, List, [], ◌∷◌,
}
use custom_net_framework.Timer.{init, get_next_timer}
use custom_net_framework.Timer.Set.{Callback, plain, on_timer}
use custom_net_framework.Timer.Steps.{here}
use custom_net_framework.Scheduler.{Task}
use custom_net_framework.IoManager.Events.{Event, read_event, write_event, has_event}
use custom_net_framework.IoManager.Report.{real_events}
use custom_net_framework.IoManager.Poll.{stopping}
use custom_net_framework.IoManager.Sample.{table, one, one-Inv, one_events}
use custom_net_framework.Scheduler.System.{start}
use custom_net_framework.IoManager.Round.{
  Report, of_pipe, of_fd, poll, Round, exits, idle_round, clamp,
}
use custom_net_framework.IoManager.Round.Fresh.{IsAwaited, IsOther, AreFresh}
use custom_net_framework.IoManager.Round.Safe.{IsRound, idle_round_lem}

abbrev reports : List Report
reports = of_pipe ∷ of_fd 5 1 ∷ []

abbrev results : List (Option (List Report))
results = none ∷ some reports ∷ []

awaited : (e : Event) → has_event (real_events 1 1) e ≡ true → has_event 1 e ≡ true
unfolding has_event real_events
awaited read_event h = refl
awaited write_event h = ground (arith, h)

fresh : AreFresh table one reports
unfolding AreFresh IsAwaited IsOther
fresh = (subst (IsAwaited 1) (sym one_events) (omega arith, awaited), tt, tt)

polled :
    (args : List ℕ) (found : List Report)
    → poll (get_next_timer (init 1000) 1001).1 results ≡ some (args, found)
    → AreFresh table one found
unfolding poll clamp get_next_timer init
polled args found e = subst (AreFresh table one) (ground (arith, e)) fresh

lacks : contains 9 (get_next_timer (init 1000) 1001).0.timers ≡ false
unfolding get_next_timer init
lacks = refl

-- The manager is scheduler 7.
own : Callback → ℕ × Task
own (plain cb) = (7, record { fiber = none; cb = some cb; thread = none })
own (on_timer weak_cond cb) = (7, record { fiber = none; cb = some cb; thread = none })

idle_round_lem_example :
    (r : Round table) × (idle_round table own
        (λ w. w)
        (λ m. m)
        start.shared
        1001
        1002
        9
        results
        one
        (init 1000)
      ≡ some r)
    × IsRound table own 1000 3 (λ w. w) (λ m. m) start.shared 1001 1002 9 results one (init 1000) r
    × (((stopping (init 1000) 1001 one.pending_event_count start.shared).1 ≡ true)
        ↔ (r ≡ exits (get_next_timer (init 1000) 1001).0))
idle_round_lem_example =
    idle_round_lem table own 1000 3 (λ w. w) (λ m. m) start.shared 1001 1002 9 results one
      (init 1000) one-Inv here (λ v r. (v, r)) (λ r. r) (λ e. ground (arith, e)) (omega arith) lacks
      polled
