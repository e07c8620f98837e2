-- ===== src/IoManager/Add.antt =====
-- `IOManager::addEvent`.
use custom_net_framework.Prelude.{
  ℕ, suc, ◌+◌, ◌^◌, ◌<◌, ◌≡◌, refl, ap, sym, ◌∙◌, subst, inl, inr, Bool, true, false, ◌&&◌, ◌||◌,
  Option, none, some, List, arith, ◌==◌, if◌then◌else◌, has, u64, get_elem?, length, set,
  Bool-cases, Option-cases, bit_or,
}
use custom_net_framework.Fiber.{State, is_exec}
use custom_net_framework.IoManager.Events.{
  Event, read_event, write_event, code, same, has_event, with_event, IsEvents, has-with,
}
use custom_net_framework.IoManager.Context.{EventContext, FdContext, get_context, set_context}
use custom_net_framework.IoManager.Slots.{IsSlot, IsContext, stored-IsContext, event_fd}
use custom_net_framework.IoManager.Books.{waiting, events_at, set-Books, waiting-set, events_at-set}
use custom_net_framework.IoManager.Grow.{ensure_lem}
use custom_net_framework.IoManager.{
  Op, add, Epoll, IoManager, ensure_context, next_op, ctl_call, event_target, store_event,
  add_to_context, add_event,
}
use custom_net_framework.IoManager.Mirror.{
  registration, Inv, failed-Inv, changed-Mirrors, requested_more,
}

-- An event that is stored: the two counts grow by one.
stored-waiting :
    (cs : List FdContext) (fd : ℕ) (c : FdContext) (e : Event) (ctx : EventContext)
    → get_elem? cs fd ≡ some c
    → IsEvents c.events
    → has_event c.events e ≡ false
    → waiting (set cs fd (set_context (record c { events = with_event c.events e }) e ctx))
      ≡ suc (waiting cs)
stored-waiting cs fd c read_event ctx f v h =
    let d = record c { read = ctx; events = with_event c.events read_event } in
    ground (
      arith,
      waiting-set cs fd c d f,
      has-with c.events read_event read_event v,
      has-with c.events read_event write_event v,
    )
stored-waiting cs fd c write_event ctx f v h =
    let d = record c { write = ctx; events = with_event c.events write_event } in
    ground (
      arith,
      waiting-set cs fd c d f,
      has-with c.events write_event read_event v,
      has-with c.events write_event write_event v,
    )

-- An empty slot passes the assertion.
empty_slot :
    (ctx : EventContext)
    → IsSlot false ctx
    → has ctx.scheduler || has ctx.fiber || has ctx.cb ≡ false
empty_slot ctx s = ground (arith, s.0, s.1, s.2)

module _ (E : Epoll) where
  -- A caller that gives a callback, or runs in a fiber, has something to store.
  event_target_lem :
      (scheduler fiber : ℕ) (state : State) (cb : Option ℕ)
      → has cb || is_exec state ≡ true
      → (ctx : EventContext) × (event_target E scheduler fiber state cb ≡ some ctx)
        × IsSlot true ctx
  unfolding event_target
  event_target_lem s f state (some cb) h =
      (record { scheduler = some s; fiber = none; cb = some cb }, refl, (refl, refl))
  event_target_lem s f state none h =
      (record { scheduler = some s; fiber = some f; cb = none }, ground (arith, h), (refl, refl))

  add_to_context_lem :
      (pipe : ℕ) (io : IoManager (E.State)) (fd : ℕ) (c : FdContext) (e : Event)
      (ctx : EventContext)
      → Inv E pipe io
      → get_elem? io.fd_contexts fd ≡ some c
      → has_event c.events e ≡ false
      → IsSlot true ctx
      → (io' : IoManager (E.State)) × (ok : Bool) × (add_to_context E io fd c e (some ctx)
          ≡ some (io', ok))
        × Inv E pipe io'
        × ((j : ℕ)
            → events_at io'.fd_contexts j
              ≡ (if ok && (fd == j) then with_event c.events e else events_at io.fd_contexts j))
        × (io'.scheduled ≡ io.scheduled)
  unfolding add_to_context store_event
  add_to_context_lem pipe io fd c e ctx v f h s = elim (Bool-cases (r.1)) [
    | inl done ↦ (
      stored,
      true,
      ground (arith, h, empty, done),
      record {
        books =
            set-Books io.fd_contexts io.pending_event_count (u64 (io.pending_event_count + 1)) fd c
              d (v.books) f (stored-IsContext c e ctx ok.0 s) same_fd
              (ground (
                arith,
                v.books.pending_exact,
                stored-waiting io.fd_contexts fd c e ctx f ok.0.valid h,
              ));
        mirrors =
            changed-Mirrors E pipe io.kernel io.fd_contexts op fd m c d (v.mirrors) f done
              (requested_more E c.events e ok.0.valid ∙ ap registration (sym same_events));
      },
      λ j.
          events_at-set io.fd_contexts fd j c d f
          ∙ ap (λ n. if fd == j then n else events_at io.fd_contexts j) same_events,
      refl,
    )
    | inr failed ↦ (
      r.0,
      false,
      ground (arith, h, failed),
      failed-Inv E pipe io op fd m v (ground (arith, failed)),
      λ j. refl,
      refl,
    )
  ]
    where
      ok : IsContext c × (c.fd ≡ fd)
      ok = v.books.contexts fd c f

      op : Op
      op = next_op c.events add

      m : ℕ
      m = bit_or (bit_or (2 ^ 31) c.events) (code e)

      r : IoManager (E.State) × Bool
      r = ctl_call E io op fd m

      d : FdContext
      d = set_context (record c { events = with_event c.events e }) e ctx

      same_fd : d.fd ≡ c.fd
      same_fd = (event_fd c e (with_event c.events e) ctx).0

      same_events : d.events ≡ with_event c.events e
      same_events = (event_fd c e (with_event c.events e) ctx).1

      empty :
          has (get_context c e).scheduler || has (get_context c e).fiber || has (get_context c e).cb
          ≡ false
      empty =
          empty_slot (get_context c e) (subst (λ b. IsSlot b (get_context c e)) h (ok.0.slots e))

      stored : IoManager (E.State)
      stored = record io {
        kernel = r.0.kernel;
        fd_contexts = set io.fd_contexts fd d;
        pending_event_count = u64 (io.pending_event_count + 1);
      }

  -- On a state that keeps the invariant, for an event that is not waited for yet, and with a callback
  -- or a running fiber, `addEvent` returns without a fault and keeps the invariant: the table, the
  -- count of pending events and epoll's interest list agree. The descriptor gets the event just if
  -- `addEvent` returns 0; no other descriptor's events change, and nothing is scheduled.
  pub add_event_lem :
      (pipe : ℕ) (io : IoManager (E.State)) (fd : ℕ) (e : Event) (cb : Option ℕ)
      (scheduler fiber : ℕ) (state : State)
      → Inv E pipe io
      → has_event (events_at io.fd_contexts fd) e ≡ false
      → has cb || is_exec state ≡ true
      → (io' : IoManager (E.State)) × (ok : Bool) × (add_event E io fd e cb scheduler fiber state
          ≡ some (io', ok))
        × Inv E pipe io'
        × ((j : ℕ)
            → events_at io'.fd_contexts j ≡ (
                if ok && (fd == j)
                then with_event (events_at io.fd_contexts fd) e
                else events_at io.fd_contexts j))
        × (io'.scheduled ≡ io.scheduled)
  unfolding add_event
  add_event_lem pipe io fd e cb scheduler fiber state v h target =
      let (c, f, books, same) = ensure_lem fd io.pending_event_count io.fd_contexts (v.books) in
      let (ctx, t, s) = event_target_lem scheduler fiber state cb target in
      let at_c : events_at io.fd_contexts fd ≡ c.events = sym (same fd) ∙ ground (arith, f) in
      let grown = record io { fd_contexts = ensure_context fd io.fd_contexts } in
      let v' : Inv E pipe grown = record {
        books = books;
        mirrors = λ j ne. v.mirrors j ne ∙ ap registration (sym (same j));
      } in
      let (io', ok, run, inv, events, tasks) =
        add_to_context_lem pipe grown fd c e ctx v' f (ap (λ n. has_event n e) (sym at_c) ∙ h) s in
      (io', ok, ground (arith, f, t, run), inv, λ j. events j ∙ ground (arith, same j, at_c), tasks)

  -- Waiting twice for one event fails the assertion of `addEvent`.
  pub add_event_twice :
      (io : IoManager (E.State)) (fd : ℕ) (e : Event) (cb : Option ℕ) (scheduler fiber : ℕ)
      (state : State)
      → fd < length io.fd_contexts
      → has_event (events_at io.fd_contexts fd) e ≡ true
      → add_event E io fd e cb scheduler fiber state ≡ none
  unfolding add_event add_to_context ensure_context
  add_event_twice io fd e cb scheduler fiber state l h =
      elim (Option-cases (get_elem? io.fd_contexts fd)) [
        | inl n ↦ ground (arith, n, l)
        | inr (c, y) ↦
            let b : has_event c.events e ≡ true =
              ap (λ o. has_event (elim o [ none ↦ 0 | some d ↦ d.events ]) e) (sym y) ∙ h in
            ground (arith, y, l, b)
      ]
