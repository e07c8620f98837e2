-- ===== src/IoManager/Idle.antt =====
-- One `epoll_event` in the idle loop.
use custom_net_framework.Prelude.{
  ℕ, ◌^◌, ◌≡◌, ap, sym, ◌∙◌, inl, inr, Bool, true, false, not, ◌&&◌, none, some, List, [], ◌++◌,
  arith, ◌==◌, if◌then◌else◌, get_elem?, Bool-cases, bit_or, bit_and, and_not,
}
use custom_net_framework.Scheduler.{Task}
use custom_net_framework.IoManager.Events.{
  Event, read_event, write_event, has_event, IsEvents, has-without, and_not_events, common_events,
}
use custom_net_framework.IoManager.Context.{FdContext, trigger_event}
use custom_net_framework.IoManager.Books.{events_at, Books}
use custom_net_framework.IoManager.{del, Epoll, IoManager, next_op, ctl_call, trigger, trigger_if}
use custom_net_framework.IoManager.Report.{real_events, handle_events, handle_report}
use custom_net_framework.IoManager.Mirror.{Inv, requested_left}
use custom_net_framework.IoManager.Trigger.{wakes, trigger_if_lem, trigger_both_lem}
use custom_net_framework.IoManager.Delete.{Does, failed-Does, nothing-Does}
use custom_net_framework.IoManager.Cancel.{triggered-Does}

both_bits : (a b : Bool) → IsEvents (bit_or (if a then 0 else 1) (if b then 0 else 4))
both_bits true true = omega arith
both_bits true false = omega arith
both_bits false true = omega arith
both_bits false false = omega arith

pub real_events-IsEvents : (reported events : ℕ) → IsEvents (real_events reported events)
unfolding real_events
real_events-IsEvents reported events = both_bits (bit_and seen 1 == 0) (bit_and seen 4 == 0)
  where
    seen : ℕ
    seen =
        if bit_and reported 0x18 == 0
        then reported
        else bit_or reported (bit_and (bit_or 1 4) events)

-- The tasks that a context hands over for a set of events.
pub wakes_all : FdContext → ℕ → List (ℕ × Task)
wakes_all c real =
    (if has_event real read_event then wakes c read_event else [])
    ++ (if has_event real write_event then wakes c write_event else [])

module _ (E : Epoll) where
  handle_events_lem :
      (pipe : ℕ) (io : IoManager (E.State)) (fd : ℕ) (c : FdContext) (real : ℕ)
      → Inv E pipe io
      → get_elem? io.fd_contexts fd ≡ some c
      → IsEvents real
      → ((e : Event) → has_event real e ≡ true → has_event c.events e ≡ true)
      → let left = and_not c.events real in
        (io' : IoManager (E.State)) × (handle_events E io fd c real ≡ some io')
        × Does E pipe io io'
            (not (bit_and c.events real == 0)
              && (ctl_call E io (next_op left del) fd (bit_or (2 ^ 31) left)).1)
            fd
            left
            (wakes_all c real)
  unfolding handle_events wakes_all
  handle_events_lem pipe io fd c real v f w fresh = elim (Bool-cases (bit_and c.events real == 0)) [
    | inl y ↦ (
      io,
      ground (arith, y),
      rw y (nothing-Does E pipe io fd (and_not c.events real) (wakes_all c real) v),
    )
    | inr n ↦
        let left = and_not c.events real in
        let op = next_op left del in
        let m = bit_or (2 ^ 31) left in
        let r = ctl_call E io op fd m in
        elim (Bool-cases (r.1)) [
          | inl done ↦
              let (io', c', io'', c'', run, keeps, run', books, gone, at, handed, k) =
                trigger_both_lem E (has_event real read_event) (has_event real write_event) r.0 fd c
                  v.books f (fresh read_event) (fresh write_event) in
              (
                io'',
                ground (arith, n, done, run, run'),
                rw (n, done)
                    (triggered-Does E pipe io io'' op fd m left (wakes_all c real) v done
                      (requested_left E left) books
                      (λ j.
                        at j
                        ∙ ap (λ x. if fd == j then x else events_at io.fd_contexts j)
                            (gone
                              ∙ sym (
                                  and_not_events c.events real (v.books.contexts fd c f).0.valid
                                    w)))
                      handed k),
              )
          | inr failed ↦ (
            r.0,
            ground (arith, n, failed),
            rw (n, failed) (failed-Does E pipe io op fd m left (wakes_all c real) v failed),
          )
        ]
  ]

  -- The idle loop on one `epoll_event` for a descriptor of the table, in a state that keeps the
  -- invariant and when every event that it stands for is still waited for: no assertion fails, and
  -- the invariant is kept. If there is such an event and epoll_ctl succeeds, these events are taken
  -- from the descriptor and what waited for them is scheduled; otherwise no events change and
  -- nothing is scheduled.
  pub handle_report_exact :
      (pipe : ℕ) (io : IoManager (E.State)) (fd : ℕ) (c : FdContext) (reported : ℕ)
      → let real = real_events reported c.events in
        let left = and_not c.events real in
        Inv E pipe io
        → get_elem? io.fd_contexts fd ≡ some c
        → ((e : Event) → has_event real e ≡ true → has_event c.events e ≡ true)
        → (io' : IoManager (E.State)) × (handle_report E io fd reported ≡ some io')
          × Does E pipe io io'
              (not (bit_and c.events real == 0)
                && (ctl_call E io (next_op left del) fd (bit_or (2 ^ 31) left)).1)
              fd
              left
              (wakes_all c real)
  unfolding handle_report
  handle_report_exact pipe io fd c reported v f fresh =
      let (io', run, does) =
        handle_events_lem pipe io fd c (real_events reported c.events) v f
          (real_events-IsEvents reported c.events) fresh in
      (io', ground (arith, f, run), does)

  stale_bit :
      (io : IoManager (E.State)) (fd : ℕ) (c : FdContext) (e : Event)
      → has_event c.events e ≡ false
      → trigger_if E true io fd c e ≡ none
  unfolding trigger_if trigger trigger_event
  stale_bit io fd c e n = ground (arith, n)

  -- One of two triggered events is no longer waited for.
  stale_both :
      (io : IoManager (E.State)) (fd : ℕ) (c : FdContext) (f : Event) (real : ℕ)
      → Books io.fd_contexts io.pending_event_count
      → get_elem? io.fd_contexts fd ≡ some c
      → has_event real f ≡ true
      → has_event c.events f ≡ false
      → (elim (trigger_if E (has_event real read_event) io fd c read_event) [
        | none ↦ none
        | some (io', c') ↦ elim (trigger_if E (has_event real write_event) io' fd c' write_event) [
          | none ↦ none
          | some (io'', _) ↦ some io''
        ]
      ])
        ≡ none
  stale_both io fd c read_event real v at r n = ground (arith, r, stale_bit io fd c read_event n)
  stale_both io fd c write_event real v at r n =
      elim (Bool-cases (has_event real read_event && has_event c.events read_event)) [
        | inl y ↦
            let (io', c', run, t) =
              trigger_if_lem E true io fd c read_event v at (λ _. ground (arith, y)) in
            ground (
              arith,
              y,
              r,
              run,
              stale_bit io' fd c' write_event (
                  ap (λ x. has_event x write_event) t.left
                  ∙ has-without c.events read_event write_event (v.contexts fd c at).0.valid
                  ∙ ground (arith, n)),
            )
        | inr o ↦ elim (Bool-cases (has_event real read_event)) [
          | inl y ↦ ground (arith, y, stale_bit io fd c read_event (ground (arith, o, y)))
          | inr z ↦ unfold trigger_if in ground (arith, z, r, stale_bit io fd c write_event n)
        ]
      ]

  -- In a state that keeps the invariant, an `epoll_event` that stands for an event that is waited
  -- for and for one that is not, such as one deleted after epoll_wait had returned: the idle loop
  -- fails the assertion of `triggerEvent` if its call of epoll_ctl succeeds.
  pub handle_report_stale :
      (pipe : ℕ) (io : IoManager (E.State)) (fd : ℕ) (c : FdContext) (reported : ℕ) (e f : Event)
      → let real = real_events reported c.events in
        let left = and_not c.events real in
        Inv E pipe io
        → get_elem? io.fd_contexts fd ≡ some c
        → has_event real e ≡ true
        → has_event c.events e ≡ true
        → has_event real f ≡ true
        → has_event c.events f ≡ false
        → (ctl_call E io (next_op left del) fd (bit_or (2 ^ 31) left)).1 ≡ true
        → handle_report E io fd reported ≡ none
  unfolding handle_report handle_events
  handle_report_stale pipe io fd c reported e f v at re ce rf cf done =
      let real = real_events reported c.events in
      let left = and_not c.events real in
      let common : (bit_and c.events real == 0) ≡ false =
        common_events c.events real (v.books.contexts fd c at).0.valid
          (real_events-IsEvents reported c.events)
        ∙ not_none e re ce in
      ground (
        arith,
        at,
        common,
        done,
        stale_both (ctl_call E io (next_op left del) fd (bit_or (2 ^ 31) left)).0 fd c f real
            v.books at rf cf,
      )
    where
      not_none :
          (e : Event)
          → has_event (real_events reported c.events) e ≡ true
          → has_event c.events e ≡ true
          → (not (
                has_event c.events read_event
                && has_event (real_events reported c.events) read_event)
              && not (
                  has_event c.events write_event
                  && has_event (real_events reported c.events) write_event))
            ≡ false
      not_none read_event r w = ground (arith, r, w)
      not_none write_event r w = ground (arith, r, w)
