-- ===== src/IoManager/Trigger.antt =====
-- `triggerEvent` on a state whose table and count agree.
use custom_net_framework.Prelude.{
  ℕ, ◌≡◌, refl, ap, sym, ◌∙◌, subst, inl, inr, Bool, true, false, none, some, List, [], ◌∷◌, ◌++◌,
  arith, ◌==◌, if◌then◌else◌, get_elem?, Bool-cases,
}
use custom_net_framework.Scheduler.{Task}
use custom_net_framework.IoManager.Events.{
  Event, read_event, write_event, same, has_event, without_event, IsEvents, has-without, without_if,
}
use custom_net_framework.IoManager.Context.{
  EventContext, FdContext, get_context, event_task, moved_out,
}
use custom_net_framework.IoManager.Slots.{IsSlot, IsContext, triggered, trigger_event_lem, event_fd}
use custom_net_framework.IoManager.Books.{events_at, Books, get_elem?-set, events_at-set}
use custom_net_framework.IoManager.{Epoll, IoManager, settle, trigger, trigger_if}
use mathlib.Core.List.{append-nil, append_assoc}
use custom_net_framework.IoManager.Mirror.{settle-Books}

-- What a context hands over when an event is triggered: nothing, for an event that is not waited for.
pub wakes : FdContext → Event → List (ℕ × Task)
wakes c e = elim ((get_context c e).scheduler) [
  | none ↦ []
  | some s ↦ (s, event_task (get_context c e)) ∷ []
]

wakes_none :
    (c : FdContext) (e : Event) → IsContext c → has_event c.events e ≡ false → wakes c e ≡ []
unfolding wakes
wakes_none c e v h =
    let s : IsSlot false (get_context c e) =
      subst (λ b. IsSlot b (get_context c e)) h (v.slots e) in
    ground (arith, s.0)

pub guarded_wakes :
    (c : FdContext) (e : Event)
    → IsContext c
    → (if has_event c.events e then wakes c e else []) ≡ wakes c e
guarded_wakes c e v = elim (Bool-cases (has_event c.events e)) [
  | inl y ↦ ground (arith, y)
  | inr n ↦ ground (arith, n, wakes_none c e v n)
]

other_slot :
    (c : FdContext) (e f : Event)
    → same e f ≡ false
    → get_context (triggered c e) f ≡ get_context c f
other_slot c read_event read_event n = cc
other_slot c read_event write_event n = refl
other_slot c write_event read_event n = refl
other_slot c write_event write_event n = cc

module _ (E : Epoll) where
  -- What triggering does to a state, for a context at `fd`: `b` is whether the event is triggered.
  pub record Triggers (b : Bool) (io : IoManager (E.State)) (fd : ℕ) (c : FdContext) (e : Event)
      (io' : IoManager (E.State)) (c' : FdContext) : Type 0 where
    pub books : Books io'.fd_contexts io'.pending_event_count
    pub found : get_elem? io'.fd_contexts fd ≡ some c'
    pub left : c'.events ≡ without_if b c.events e
    pub others :
        (j : ℕ)
        → events_at io'.fd_contexts j ≡ (if fd == j then c'.events else events_at io.fd_contexts j)
    pub handed : io'.scheduled ≡ io.scheduled ++ (if b then wakes c e else [])
    pub kept : (f : Event) → same e f ≡ false → get_context c' f ≡ get_context c f
    pub same_kernel : io'.kernel ≡ io.kernel

  trigger_lem :
      (io : IoManager (E.State)) (fd : ℕ) (c : FdContext) (e : Event)
      → Books io.fd_contexts io.pending_event_count
      → get_elem? io.fd_contexts fd ≡ some c
      → has_event c.events e ≡ true
      → (io' : IoManager (E.State)) × (c' : FdContext) × (trigger E io fd c e ≡ some (io', c'))
        × Triggers true io fd c e io' c'
  unfolding trigger wakes
  trigger_lem io fd c e v f h =
      let (s, y, run, ok) = trigger_event_lem c e (v.contexts fd c f).0 h in
      let slot : IsSlot true (get_context c e) =
        subst (λ b. IsSlot b (get_context c e)) h ((v.contexts fd c f).0.slots e) in
      (
        settle E io fd (triggered c e) ((s, event_task (get_context c e)) ∷ []),
        triggered c e,
        ground (arith, run),
        record {
          books =
              settle-Books E io fd c e (moved_out (get_context c e)) v f h
                (empty_after (get_context c e) slot);
          found = get_elem?-set io.fd_contexts fd fd c (triggered c e) f ∙ ground arith;
          left = (event_fd c e (without_event c.events e) (moved_out (get_context c e))).1;
          others = λ j. events_at-set io.fd_contexts fd j c (triggered c e) f;
          handed = ground (arith, y);
          kept = other_slot c e;
          same_kernel = refl;
        },
      )
    where
      empty_after : (ctx : EventContext) → IsSlot true ctx → IsSlot false (moved_out ctx)
      empty_after ctx s = ground (arith, s)

  -- `trigger_if` does not fault where the triggered event is waited for.
  pub trigger_if_lem :
      (b : Bool) (io : IoManager (E.State)) (fd : ℕ) (c : FdContext) (e : Event)
      → Books io.fd_contexts io.pending_event_count
      → get_elem? io.fd_contexts fd ≡ some c
      → (b ≡ true → has_event c.events e ≡ true)
      → (io' : IoManager (E.State)) × (c' : FdContext) × (trigger_if E b io fd c e ≡ some (io', c'))
        × Triggers b io fd c e io' c'
  unfolding trigger_if
  trigger_if_lem true io fd c e v f h = trigger_lem io fd c e v f (h refl)
  trigger_if_lem false io fd c e v f h = (
    io,
    c,
    refl,
    record {
      books = v;
      found = f;
      left = refl;
      others = λ j. elim (Bool-cases (fd == j)) [
        | inl y ↦ ground (arith, f)
        | inr n ↦ ground (arith, n)
      ];
      handed = sym (append-nil (io.scheduled));
      kept = λ g n. refl;
      same_kernel = refl;
    },
  )

  -- Both events, one after the other: `reads` and `writes` say which are triggered.
  pub trigger_both_lem :
      (reads writes : Bool) (io : IoManager (E.State)) (fd : ℕ) (c : FdContext)
      → Books io.fd_contexts io.pending_event_count
      → get_elem? io.fd_contexts fd ≡ some c
      → (reads ≡ true → has_event c.events read_event ≡ true)
      → (writes ≡ true → has_event c.events write_event ≡ true)
      → (io' : IoManager (E.State)) × (c' : FdContext) × (io'' : IoManager (E.State))
        × (c'' : FdContext) × (trigger_if E reads io fd c read_event ≡ some (io', c'))
        × (has_event c'.events write_event ≡ has_event c.events write_event)
        × (trigger_if E writes io' fd c' write_event ≡ some (io'', c''))
        × Books io''.fd_contexts io''.pending_event_count
        × (c''.events ≡ without_if writes (without_if reads c.events read_event) write_event)
        × ((j : ℕ)
            → events_at io''.fd_contexts j
              ≡ (if fd == j then c''.events else events_at io.fd_contexts j))
        × (io''.scheduled
            ≡ io.scheduled
              ++ ((if reads then wakes c read_event else [])
                  ++ (if writes then wakes c write_event else [])))
        × (io''.kernel ≡ io.kernel)
  unfolding wakes
  trigger_both_lem reads writes io fd c v f hr hw =
      let (io', c', run, t) = trigger_if_lem reads io fd c read_event v f hr in
      let ok : IsContext c = (v.contexts fd c f).0 in
      let same_write : has_event c'.events write_event ≡ has_event c.events write_event =
        ap (λ n. has_event n write_event) t.left ∙ keeps_write reads c.events ok.valid in
      let (io'', c'', run', t') =
        trigger_if_lem writes io' fd c' write_event t.books t.found (λ y. same_write ∙ hw y) in
      let slot : get_context c' write_event ≡ get_context c write_event = t.kept write_event refl in
      (
        io',
        c',
        io'',
        c'',
        run,
        same_write,
        run',
        t'.books,
        t'.left ∙ ap (λ n. without_if writes n write_event) t.left,
        λ j. elim (Bool-cases (fd == j)) [
          | inl y ↦ t'.others j ∙ ground (arith, y)
          | inr n ↦ t'.others j ∙ ground (arith, n, t.others j)
        ],
        t'.handed
            ∙ ap (λ l. l ++ (if writes then wakes c' write_event else [])) t.handed
            ∙ append_assoc io.scheduled (if reads then wakes c read_event else [])
                (if writes then wakes c' write_event else [])
            ∙ ap
                (λ w.
                  io.scheduled
                  ++ ((if reads then wakes c read_event else []) ++ (if writes then w else [])))
                (same_wakes c c' slot),
        t'.same_kernel ∙ t.same_kernel,
      )
    where
      keeps_write :
          (b : Bool) (events : ℕ)
          → IsEvents events
          → has_event (without_if b events read_event) write_event ≡ has_event events write_event
      keeps_write true events v = ground (arith, has-without events read_event write_event v)
      keeps_write false events v = refl

      same_wakes :
          (c c' : FdContext)
          → get_context c' write_event ≡ get_context c write_event
          → wakes c' write_event ≡ wakes c write_event
      same_wakes c c' e =
          ap
            (λ ctx. elim (EventContext.scheduler ctx) [
              | none ↦ []
              | some s ↦ (s, event_task ctx) ∷ []
            ])
            e
