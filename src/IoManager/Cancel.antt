-- ===== src/IoManager/Cancel.antt =====
-- `cancelEvent` and `cancelAll`.
use custom_net_framework.Prelude.{
  ℕ, ◌^◌, ◌≡◌, ◌≢◌, refl, ap, ◌∙◌, inl, inr, Bool, true, false, not, none, some, List, [], ◌++◌,
  arith, ◌==◌, if◌then◌else◌, get_elem?, Bool-cases, Option-cases, bit_or,
}
use custom_net_framework.Scheduler.{Task}
use custom_net_framework.IoManager.Events.{
  Event, read_event, write_event, has_event, without_event, IsEvents, without_if,
}
use custom_net_framework.IoManager.Context.{FdContext}
use custom_net_framework.IoManager.Slots.{IsContext}
use custom_net_framework.IoManager.Books.{events_at, Books}
use custom_net_framework.IoManager.{
  Op, del, requested, Epoll, IoManager, next_op, ctl_call, cancel_in_context, cancel_event,
  trigger_if, trigger_all, cancel_all,
}
use custom_net_framework.IoManager.Mirror.{registration, Inv, requested_left}
use custom_net_framework.IoManager.Trigger.{wakes, guarded_wakes, trigger_if_lem, trigger_both_lem}
use custom_net_framework.IoManager.Delete.{Does, moved-Mirrors, failed-Does, nothing-Does}

-- The tasks that the context of a descriptor hands over for an event.
pub wakes_at : List FdContext → ℕ → Event → List (ℕ × Task)
wakes_at cs fd e = elim (get_elem? cs fd) [ none ↦ [] | some c ↦ wakes c e ]

-- Taking away all events that there are.
nothing_left :
    (events : ℕ)
    → IsEvents events
    → without_if
        (has_event events write_event)
        (without_if (has_event events read_event) events read_event)
        write_event
      ≡ 0
unfolding without_event has_event
nothing_left events (inl e) = rw e refl
nothing_left events (inr (inl e)) = rw e refl
nothing_left events (inr (inr (inl e))) = rw e refl
nothing_left events (inr (inr (inr e))) = rw e refl

module _ (E : Epoll) where
  -- The invariant through the call of epoll_ctl and the triggers after it.
  pub triggered-Does :
      (pipe : ℕ) (io io' : IoManager (E.State)) (op : Op) (fd m n : ℕ) (tasks : List (ℕ × Task))
      → Inv E pipe io
      → (E.ctl io.kernel op fd m).1 ≡ true
      → requested op m ≡ registration n
      → Books io'.fd_contexts io'.pending_event_count
      → ((j : ℕ)
          → events_at io'.fd_contexts j ≡ (if fd == j then n else events_at io.fd_contexts j))
      → io'.scheduled ≡ io.scheduled ++ tasks
      → io'.kernel ≡ (E.ctl io.kernel op fd m).0
      → Does E pipe io io' true fd n tasks
  triggered-Does pipe io io' op fd m n tasks v done asked books at handed k = record {
    inv = record {
      books = books;
      mirrors = λ j ne.
          ap (λ x. E.interest x j) k
          ∙ moved-Mirrors E pipe io.kernel io.fd_contexts io'.fd_contexts op fd m n v.mirrors done
              asked at j ne;
    };
    events = at;
    handed = handed;
  }

  pub cancel_event_lem :
      (pipe : ℕ) (io : IoManager (E.State)) (fd : ℕ) (e : Event)
      → Inv E pipe io
      → (io' : IoManager (E.State)) × (ok : Bool) × (cancel_event E io fd e ≡ some (io', ok))
        × Does E pipe io io' ok fd
            (without_event (events_at io.fd_contexts fd) e)
            (wakes_at io.fd_contexts fd e)
        × (ok ≡ true → has_event (events_at io.fd_contexts fd) e ≡ true)
  unfolding cancel_event cancel_in_context trigger_if wakes_at
  cancel_event_lem pipe io fd e v = elim (Option-cases (get_elem? io.fd_contexts fd)) [
    | inl null ↦
        rw (null, events_at, cancel_event, wakes_at)
          (io, false, refl, nothing-Does E pipe io fd (without_event 0 e) [] v, λ y. cc)
    | inr (c, f) ↦ rw (f, events_at, cancel_event, wakes_at) (under_lock c f)
  ]
    where
      under_lock :
          (c : FdContext)
          → get_elem? io.fd_contexts fd ≡ some c
          → (io' : IoManager (E.State)) × (ok : Bool) × (cancel_in_context E io fd c e
              ≡ some (io', ok))
            × Does E pipe io io' ok fd (without_event c.events e) (wakes c e)
            × (ok ≡ true → has_event c.events e ≡ true)
      under_lock c f = elim (Bool-cases (has_event c.events e)) [
        | inr n ↦ (
          io,
          false,
          ground (arith, n),
          nothing-Does E pipe io fd (without_event c.events e) (wakes c e) v,
          λ y. cc,
        )
        | inl y ↦
            let n = without_event c.events e in
            let op = next_op n del in
            let m = bit_or (2 ^ 31) n in
            let r = ctl_call E io op fd m in
            elim (Bool-cases (r.1)) [
              | inl done ↦
                  let (io', c', run, t) = trigger_if_lem E true r.0 fd c e v.books f (λ _. y) in
                  (
                    io',
                    true,
                    ground (arith, y, done, run),
                    triggered-Does pipe io io' op fd m n (wakes c e) v done (requested_left E n)
                        t.books
                        (λ j.
                          t.others j
                          ∙ ap (λ x. if fd == j then x else events_at io.fd_contexts j) t.left)
                        t.handed t.same_kernel,
                    λ _. y,
                  )
              | inr failed ↦ (
                r.0,
                false,
                ground (arith, y, failed),
                failed-Does E pipe io op fd m n (wakes c e) v failed,
                λ _. y,
              )
            ]
      ]

  pub cancel_all_lem :
      (pipe : ℕ) (io : IoManager (E.State)) (fd : ℕ)
      → Inv E pipe io
      → (io' : IoManager (E.State)) × (ok : Bool) × (cancel_all E io fd ≡ some (io', ok))
        × Does E pipe io io' ok fd 0
            (wakes_at io.fd_contexts fd read_event ++ wakes_at io.fd_contexts fd write_event)
        × (ok ≡ true → events_at io.fd_contexts fd ≢ 0)
  unfolding cancel_all trigger_all wakes_at
  cancel_all_lem pipe io fd v = elim (Option-cases (get_elem? io.fd_contexts fd)) [
    | inl null ↦
        rw (null, events_at, cancel_all, wakes_at)
          (io, false, refl, nothing-Does E pipe io fd 0 [] v, λ y. cc)
    | inr (c, f) ↦ elim (Bool-cases (c.events == 0)) [
      | inl y ↦
          rw (f, events_at, cancel_all, wakes_at)
            (
              io,
              false,
              ground (arith, y),
              nothing-Does E pipe io fd 0 (wakes c read_event ++ wakes c write_event) v,
              λ y. cc,
            )
      | inr n ↦
          let r = ctl_call E io del fd 0 in
          elim (Bool-cases (r.1)) [
            | inl done ↦ rw (f, events_at, cancel_all, wakes_at) (after_call c f n done)
            | inr failed ↦
                rw (f, events_at, cancel_all, wakes_at)
                  (
                    r.0,
                    false,
                    ground (arith, n, failed),
                    failed-Does E pipe io del fd 0 0 (wakes c read_event ++ wakes c write_event) v
                        failed,
                    λ y. cc,
                  )
          ]
    ]
  ]
    where
      after_call :
          (c : FdContext)
          → get_elem? io.fd_contexts fd ≡ some c
          → (c.events == 0) ≡ false
          → (ctl_call E io del fd 0).1 ≡ true
          → let r = ctl_call E io del fd 0 in
            (io' : IoManager (E.State)) × (ok : Bool) × ((if c.events == 0
                then some (io, false)
                else if not r.1
                then some (r.0, false)
                else trigger_all E r.0 fd c)
              ≡ some (io', ok))
            × Does E pipe io io' ok fd 0 (wakes c read_event ++ wakes c write_event)
            × (ok ≡ true → c.events ≢ 0)
      after_call c f n done =
          let ok : IsContext c = (v.books.contexts fd c f).0 in
          let (io', c', io'', c'', run, keeps, run', books, left, at, handed, k) =
            trigger_both_lem E (has_event c.events read_event) (has_event c.events write_event)
              (ctl_call E io del fd 0).0 fd c v.books f (λ y. y) (λ y. y) in
          let gone : c''.events ≡ 0 = left ∙ nothing_left c.events ok.valid in
          (
            io'',
            true,
            ground (
              arith,
              n,
              done,
              run,
              ap (λ b. trigger_if E b io' fd c' write_event) keeps ∙ run',
              gone,
            ),
            triggered-Does pipe io io'' del fd 0 0 (wakes c read_event ++ wakes c write_event) v
                done refl books
                (λ j. at j ∙ ap (λ x. if fd == j then x else events_at io.fd_contexts j) gone)
                (handed
                  ∙ ap
                      (λ w.
                        io.scheduled
                        ++ (w
                            ++ (if has_event c.events write_event
                                then wakes c write_event
                                else [])))
                      (guarded_wakes c read_event ok)
                  ∙ ap (λ w. io.scheduled ++ (wakes c read_event ++ w))
                      (guarded_wakes c write_event ok))
                k,
            λ _. ground (arith, n),
          )
