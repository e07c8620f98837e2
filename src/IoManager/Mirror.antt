-- ===== src/IoManager/Mirror.antt =====
-- epoll's interest list mirrors the table of contexts.
use custom_net_framework.Prelude.{
  ℕ, ◌^◌, ◌≡◌, ◌≢◌, refl, ◌∙◌, inl, inr, true, false, Option, none, some, List, arith, ◌==◌,
  if◌then◌else◌, sub64, get_elem?, set, Bool-cases, bit_or,
}
use custom_net_framework.IoManager.Events.{
  Event, read_event, write_event, code, has_event, with_event, without_event, IsEvents, has-with,
  has-without, with-IsEvents, events_empty, mask, mask_with,
}
use custom_net_framework.IoManager.Context.{EventContext, FdContext, set_context}
use custom_net_framework.IoManager.Slots.{IsSlot, cleared-IsContext}
use custom_net_framework.IoManager.Books.{events_at, Books, set-Books, waiting-set, events_at-set}
use custom_net_framework.IoManager.{Op, add, del, requested, Epoll, IoManager, next_op, ctl_call}

-- The mask that epoll holds for a descriptor that waits for `events`.
abbrev pub registration : ℕ → Option ℕ
registration events = if events == 0 then none else some (mask events)

module _ (E : Epoll) where
  -- For every descriptor but that of the pipe by which the manager is woken.
  abbrev pub Mirrors : ℕ → E.State → List FdContext → Type 0
  Mirrors pipe k cs = (fd : ℕ) → fd ≢ pipe → E.interest k fd ≡ registration (events_at cs fd)

  pub record Inv (pipe : ℕ) (io : IoManager (E.State)) : Type 0 where
    pub books : Books io.fd_contexts io.pending_event_count
    pub mirrors : Mirrors pipe io.kernel io.fd_contexts

  -- A failed call of epoll_ctl changes nothing.
  pub failed-Inv :
      (pipe : ℕ) (io : IoManager (E.State)) (op : Op) (fd m : ℕ)
      → Inv pipe io
      → (ctl_call E io op fd m).1 ≡ false
      → Inv pipe (ctl_call E io op fd m).0
  failed-Inv pipe io op fd m v e = record {
    books = v.books;
    mirrors = λ j ne. E.ctl_failed io.kernel op fd m j e ∙ v.mirrors j ne;
  }

  -- A successful call with a new context for the descriptor.
  pub changed-Mirrors :
      (pipe : ℕ) (k : E.State) (cs : List FdContext) (op : Op) (fd m : ℕ) (c c' : FdContext)
      → Mirrors pipe k cs
      → get_elem? cs fd ≡ some c
      → (E.ctl k op fd m).1 ≡ true
      → requested op m ≡ registration c'.events
      → Mirrors pipe (E.ctl k op fd m).0 (set cs fd c')
  changed-Mirrors pipe k cs op fd m c c' v e done r j ne = elim (Bool-cases (fd == j)) [
    | inl y ↦ ground (arith, E.ctl_done k op fd m j done, events_at-set cs fd j c c' e)
    | inr n ↦ ground (arith, E.ctl_done k op fd m j done, events_at-set cs fd j c c' e, v j ne)
  ]

  -- `EPOLL_CTL_MOD` or `EPOLL_CTL_DEL`, by what is left.
  pub requested_left :
      (events : ℕ) → requested (next_op events del) (bit_or (2 ^ 31) events) ≡ registration events
  unfolding mask
  requested_left events = ground arith

  -- `EPOLL_CTL_ADD` or `EPOLL_CTL_MOD`, by what was there.
  pub requested_more :
      (events : ℕ) (e : Event)
      → IsEvents events
      → requested (next_op events add) (bit_or (bit_or (2 ^ 31) events) (code e))
        ≡ registration (with_event events e)
  requested_more events read_event v = ground (
    arith,
    mask_with events read_event v,
    events_empty (with_event events read_event) (with-IsEvents events read_event v),
    has-with events read_event read_event v,
  )
  requested_more events write_event v = ground (
    arith,
    mask_with events write_event v,
    events_empty (with_event events write_event) (with-IsEvents events write_event v),
    has-with events write_event write_event v,
  )

  -- A context written back with one event less, and the count one lower.
  pub settle-Books :
      (io : IoManager (E.State)) (fd : ℕ) (c : FdContext) (e : Event) (ctx : EventContext)
      → let c' = set_context (record c { events = without_event c.events e }) e ctx in
        Books io.fd_contexts io.pending_event_count
        → get_elem? io.fd_contexts fd ≡ some c
        → has_event c.events e ≡ true
        → IsSlot false ctx
        → Books (set io.fd_contexts fd c') (sub64 io.pending_event_count 1)
  settle-Books io fd c read_event ctx v f h s =
      let d = record c { read = ctx; events = without_event c.events read_event } in
      set-Books io.fd_contexts io.pending_event_count (sub64 io.pending_event_count 1) fd c d v f
        (cleared-IsContext c read_event ctx (v.contexts fd c f).0 s) refl
        (ground (
          arith,
          v.pending_exact,
          waiting-set io.fd_contexts fd c d f,
          has-without c.events read_event read_event (v.contexts fd c f).0.valid,
          has-without c.events read_event write_event (v.contexts fd c f).0.valid,
        ))
  settle-Books io fd c write_event ctx v f h s =
      let d = record c { write = ctx; events = without_event c.events write_event } in
      set-Books io.fd_contexts io.pending_event_count (sub64 io.pending_event_count 1) fd c d v f
        (cleared-IsContext c write_event ctx (v.contexts fd c f).0 s) refl
        (ground (
          arith,
          v.pending_exact,
          waiting-set io.fd_contexts fd c d f,
          has-without c.events write_event read_event (v.contexts fd c f).0.valid,
          has-without c.events write_event write_event (v.contexts fd c f).0.valid,
        ))
