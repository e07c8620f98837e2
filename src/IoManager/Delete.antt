-- ===== src/IoManager/Delete.antt =====
-- `delEvent`.
use custom_net_framework.Prelude.{
  ℕ, ◌^◌, ◌≡◌, refl, ap, sym, ◌∙◌, inl, inr, Bool, true, false, ◌&&◌, some, List, [], ◌++◌, arith,
  ◌==◌, if◌then◌else◌, get_elem?, set, Bool-cases, Option-cases, bit_or,
}
use custom_net_framework.Scheduler.{Task}
use custom_net_framework.IoManager.Events.{Event, has_event, without_event}
use custom_net_framework.IoManager.Context.{FdContext, set_context, reset_context, empty_context}
use custom_net_framework.IoManager.Slots.{event_fd}
use custom_net_framework.IoManager.Books.{events_at, events_at-set}
use custom_net_framework.IoManager.{
  Op, del, requested, Epoll, IoManager, next_op, ctl_call, settle, del_from_context, del_event,
}
use mathlib.Core.List.{append-nil}
use custom_net_framework.IoManager.Mirror.{
  registration, Mirrors, Inv, failed-Inv, requested_left, settle-Books,
}

module _ (E : Epoll) where
  -- A successful call, with the new events of the descriptor in the table.
  pub moved-Mirrors :
      (pipe : ℕ) (k : E.State) (cs cs' : List FdContext) (op : Op) (fd m n : ℕ)
      → Mirrors E pipe k cs
      → (E.ctl k op fd m).1 ≡ true
      → requested op m ≡ registration n
      → ((j : ℕ) → events_at cs' j ≡ (if fd == j then n else events_at cs j))
      → Mirrors E pipe (E.ctl k op fd m).0 cs'
  moved-Mirrors pipe k cs cs' op fd m n v done r at j ne = elim (Bool-cases (fd == j)) [
    | inl y ↦ ground (arith, E.ctl_done k op fd m j done, at j)
    | inr o ↦ ground (arith, E.ctl_done k op fd m j done, at j, v j ne)
  ]

  -- What one of the operations does: it returned `ok`, the descriptor's events are `n` if it did
  -- anything, and `tasks` are scheduled.
  pub record Does (pipe : ℕ) (io io' : IoManager (E.State)) (ok : Bool) (fd n : ℕ)
      (tasks : List (ℕ × Task)) : Type 0 where
    pub inv : Inv E pipe io'
    pub events :
        (j : ℕ)
        → events_at io'.fd_contexts j ≡ (if ok && (fd == j) then n else events_at io.fd_contexts j)
    pub handed : io'.scheduled ≡ io.scheduled ++ (if ok then tasks else [])

  -- The call of epoll_ctl failed.
  pub failed-Does :
      (pipe : ℕ) (io : IoManager (E.State)) (op : Op) (fd m n : ℕ) (tasks : List (ℕ × Task))
      → Inv E pipe io
      → (ctl_call E io op fd m).1 ≡ false
      → Does pipe io (ctl_call E io op fd m).0 false fd n tasks
  failed-Does pipe io op fd m n tasks v e = record {
    inv = failed-Inv E pipe io op fd m v e;
    events = λ j. refl;
    handed = sym (append-nil (io.scheduled));
  }

  pub nothing-Does :
      (pipe : ℕ) (io : IoManager (E.State)) (fd n : ℕ) (tasks : List (ℕ × Task))
      → Inv E pipe io
      → Does pipe io io false fd n tasks
  nothing-Does pipe io fd n tasks v = record {
    inv = v;
    events = λ j. refl;
    handed = sym (append-nil (io.scheduled));
  }

  deleted-Does :
      (pipe : ℕ) (io : IoManager (E.State)) (fd : ℕ) (c : FdContext) (e : Event)
      → let n = without_event c.events e in
        let r = ctl_call E io (next_op n del) fd (bit_or (2 ^ 31) n) in
        Inv E pipe io
        → get_elem? io.fd_contexts fd ≡ some c
        → has_event c.events e ≡ true
        → r.1 ≡ true
        → Does pipe io (settle E r.0 fd (reset_context (record c { events = n }) e) []) true fd n []
  unfolding reset_context
  deleted-Does pipe io fd c e v f h done =
      let n = without_event c.events e in
      let d = set_context (record c { events = n }) e empty_context in
      let at : (j : ℕ)
          → events_at (set io.fd_contexts fd d) j
            ≡ (if fd == j then n else events_at io.fd_contexts j) =
        λ j.
          events_at-set io.fd_contexts fd j c d f
          ∙ ap (λ x. if fd == j then x else events_at io.fd_contexts j)
              (event_fd c e n empty_context).1 in
      record {
        inv = record {
          books = settle-Books E io fd c e empty_context v.books f h (refl, refl, refl);
          mirrors =
              moved-Mirrors pipe io.kernel io.fd_contexts (set io.fd_contexts fd d) (next_op n del)
                fd (bit_or (2 ^ 31) n) n v.mirrors done (requested_left E n) at;
        };
        events = at;
        handed = refl;
      }

  -- On a state that keeps the invariant, `delEvent` keeps the invariant. It returns true only if
  -- the event was waited for; then the event is taken from that descriptor, and from no other. If
  -- it returns false no events change. It never schedules a task.
  pub del_event_lem :
      (pipe : ℕ) (io : IoManager (E.State)) (fd : ℕ) (e : Event)
      → Inv E pipe io
      → let r = del_event E io fd e in
        Does pipe io r.0 r.1 fd (without_event (events_at io.fd_contexts fd) e) []
        × (r.1 ≡ true → has_event (events_at io.fd_contexts fd) e ≡ true)
  unfolding del_event del_from_context
  del_event_lem pipe io fd e v = elim (Option-cases (get_elem? io.fd_contexts fd)) [
    | inl null ↦
        rw (null, events_at, del_event) (nothing-Does pipe io fd (without_event 0 e) [] v, λ y. cc)
    | inr (c, f) ↦ rw (f, events_at, del_event) (under_lock c f)
  ]
    where
      under_lock :
          (c : FdContext)
          → get_elem? io.fd_contexts fd ≡ some c
          → let r = del_from_context E io fd c e in
            Does pipe io r.0 r.1 fd (without_event c.events e) []
            × (r.1 ≡ true → has_event c.events e ≡ true)
      under_lock c f = elim (Bool-cases (has_event c.events e)) [
        | inr n ↦
            rw (n, del_from_context)
              (nothing-Does pipe io fd (without_event c.events e) [] v, λ y. y)
        | inl y ↦
            let n = without_event c.events e in
            let r = ctl_call E io (next_op n del) fd (bit_or (2 ^ 31) n) in
            elim (Bool-cases (r.1)) [
              | inl done ↦
                  rw (y, done, del_from_context) (deleted-Does pipe io fd c e v f y done, λ _. refl)
              | inr failed ↦
                  rw (y, failed, del_from_context)
                    (
                      failed-Does pipe io (next_op n del) fd (bit_or (2 ^ 31) n) n [] v failed,
                      λ _. refl,
                    )
            ]
      ]
