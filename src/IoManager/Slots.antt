-- ===== src/IoManager/Slots.antt =====
-- What a context holds for its events: the two slots of an `FdContext` and its set of events agree.
use custom_net_framework.Prelude.{
  ℕ, Bool, true, false, not, none, some, has, ◌≡◌, refl, ◌+◌, ◌&&◌, ◌||◌, Option-cases, inl, inr,
  subst, arith, bit,
}
use custom_net_framework.IoManager.Events.{
  Event, read_event, write_event, has_event, without_event, with_event, IsEvents, has-without,
  has-with, without-IsEvents, with-IsEvents,
}
use custom_net_framework.IoManager.Context.{
  EventContext, FdContext, fresh_context, get_context, set_context, trigger_event, event_task,
  moved_out,
}

-- A context holds a scheduler and either a fiber or a callback for an event that is waited for, and
-- nothing for one that is not.
abbrev pub IsSlot : Bool → EventContext → Type 0
IsSlot true ctx = (has ctx.scheduler ≡ true) × (has ctx.fiber ≡ not (has ctx.cb))
IsSlot false ctx = (ctx.scheduler ≡ none) × (ctx.fiber ≡ none) × (ctx.cb ≡ none)

pub record IsContext (c : FdContext) : Type 0 where
  pub valid : IsEvents c.events
  pub slots : (e : Event) → IsSlot (has_event c.events e) (get_context c e)

abbrev pub weight : FdContext → ℕ
weight c = bit (has_event c.events read_event) + bit (has_event c.events write_event)

pub fresh_context-IsContext : (fd : ℕ) → IsContext (fresh_context fd)
unfolding fresh_context has_event
fresh_context-IsContext fd = record { valid = omega arith; slots = slots }
  where
    slots : (e : Event) → IsSlot (has_event 0 e) (get_context (fresh_context fd) e)
    slots read_event = (refl, refl, refl)
    slots write_event = (refl, refl, refl)

IsSlot-and_true : (b : Bool) (ctx : EventContext) → IsSlot b ctx → IsSlot (b && true) ctx
IsSlot-and_true true ctx s = s
IsSlot-and_true false ctx s = s

IsSlot-and_false : (b : Bool) (ctx : EventContext) → IsSlot false ctx → IsSlot (b && false) ctx
IsSlot-and_false true ctx s = s
IsSlot-and_false false ctx s = s

IsSlot-or_true : (b : Bool) (ctx : EventContext) → IsSlot true ctx → IsSlot (b || true) ctx
IsSlot-or_true true ctx s = s
IsSlot-or_true false ctx s = s

IsSlot-or_false : (b : Bool) (ctx : EventContext) → IsSlot b ctx → IsSlot (b || false) ctx
IsSlot-or_false true ctx s = s
IsSlot-or_false false ctx s = s

-- Clearing one event of a context, with any empty slot.
pub cleared-IsContext :
    (c : FdContext) (e : Event) (ctx : EventContext)
    → IsContext c
    → IsSlot false ctx
    → IsContext (set_context (record c { events = without_event c.events e }) e ctx)
cleared-IsContext c read_event ctx v s = record {
  valid = without-IsEvents c.events read_event v.valid;
  slots = elim [
    | read_event ↦
        rw (has-without c.events read_event read_event v.valid)
          (IsSlot-and_false (has_event c.events read_event) ctx s)
    | write_event ↦
        rw (has-without c.events read_event write_event v.valid)
          (IsSlot-and_true (has_event c.events write_event) c.write (v.slots write_event))
  ];
}
cleared-IsContext c write_event ctx v s = record {
  valid = without-IsEvents c.events write_event v.valid;
  slots = elim [
    | read_event ↦
        rw (has-without c.events write_event read_event v.valid)
          (IsSlot-and_true (has_event c.events read_event) c.read (v.slots read_event))
    | write_event ↦
        rw (has-without c.events write_event write_event v.valid)
          (IsSlot-and_false (has_event c.events write_event) ctx s)
  ];
}

-- Storing a scheduler and a target for one event of a context.
pub stored-IsContext :
    (c : FdContext) (e : Event) (ctx : EventContext)
    → IsContext c
    → IsSlot true ctx
    → IsContext (set_context (record c { events = with_event c.events e }) e ctx)
stored-IsContext c read_event ctx v s = record {
  valid = with-IsEvents c.events read_event v.valid;
  slots = elim [
    | read_event ↦
        rw (has-with c.events read_event read_event v.valid)
          (IsSlot-or_true (has_event c.events read_event) ctx s)
    | write_event ↦
        rw (has-with c.events read_event write_event v.valid)
          (IsSlot-or_false (has_event c.events write_event) c.write (v.slots write_event))
  ];
}
stored-IsContext c write_event ctx v s = record {
  valid = with-IsEvents c.events write_event v.valid;
  slots = elim [
    | read_event ↦
        rw (has-with c.events write_event read_event v.valid)
          (IsSlot-or_false (has_event c.events read_event) c.read (v.slots read_event))
    | write_event ↦
        rw (has-with c.events write_event write_event v.valid)
          (IsSlot-or_true (has_event c.events write_event) ctx s)
  ];
}

-- A waited-for event is triggered without fault, and its slot is empty afterwards.
abbrev pub triggered : FdContext → Event → FdContext
triggered c e =
    set_context (record c { events = without_event c.events e }) e (moved_out (get_context c e))

moved_out-IsSlot : (ctx : EventContext) → IsSlot true ctx → IsSlot false (moved_out ctx)
moved_out-IsSlot ctx s = ground arith

pub trigger_event_lem :
    (c : FdContext) (e : Event)
    → IsContext c
    → has_event c.events e ≡ true
    → (s : ℕ) × ((get_context c e).scheduler ≡ some s)
      × (trigger_event c e ≡ some (triggered c e, (s, event_task (get_context c e))))
      × IsContext (triggered c e)
unfolding trigger_event
trigger_event_lem c e v h =
    let slot : IsSlot true (get_context c e) =
      subst (λ b. IsSlot b (get_context c e)) h (v.slots e) in
    elim (Option-cases ((get_context c e).scheduler)) [
      | inl null ↦ absurd (ground (arith, slot.0))
      | inr (s, y) ↦ (
        s,
        y,
        ground arith,
        cleared-IsContext c e (moved_out (get_context c e)) v
            (moved_out-IsSlot (get_context c e) slot),
      )
    ]

pub event_fd :
    (c : FdContext) (e : Event) (events : ℕ) (ctx : EventContext)
    → ((set_context (record c { events = events }) e ctx).fd ≡ c.fd)
      × ((set_context (record c { events = events }) e ctx).events ≡ events)
event_fd c read_event events ctx = (refl, refl)
event_fd c write_event events ctx = (refl, refl)
