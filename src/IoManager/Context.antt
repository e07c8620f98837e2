-- ===== src/IoManager/Context.antt =====
-- `IOManager::FdContext`: what waits for the events of one descriptor.
use custom_net_framework.Prelude.{ℕ, Option, none, some, if◌then◌else◌, has}
use custom_net_framework.Scheduler.{Task}
use custom_net_framework.IoManager.Events.{Event, read_event, write_event, has_event, without_event}

pub record EventContext : Type 0 where
  pub scheduler : Option ℕ
  pub fiber : Option ℕ
  pub cb : Option ℕ

pub record FdContext : Type 0 where
  pub read : EventContext
  pub write : EventContext
  pub fd : ℕ
  pub events : ℕ

-- The state that `resetContext` leaves.
abbrev pub empty_context : EventContext
empty_context = record { scheduler = none; fiber = none; cb = none }

-- `new FdContext`, with its descriptor.
unfoldable pub fresh_context : ℕ → FdContext
fresh_context fd = record { read = empty_context; write = empty_context; fd = fd; events = 0 }

-- `getContext`, for reading and for writing.
abbrev pub get_context : FdContext → Event → EventContext
get_context c read_event = c.read
get_context c write_event = c.write

abbrev pub set_context : FdContext → Event → EventContext → FdContext
set_context c read_event ctx = record c { read = ctx }
set_context c write_event ctx = record c { write = ctx }

-- `resetContext`.
unfoldable pub reset_context : FdContext → Event → FdContext
reset_context c event = set_context c event empty_context

-- The task that `triggerEvent` hands over: the pointer overload of `schedule` moves the callback, or
-- else the fiber, out of the context.
abbrev pub event_task : EventContext → Task
event_task ctx =
    if has ctx.cb
    then record { fiber = none; cb = ctx.cb; thread = none }
    else record { fiber = ctx.fiber; cb = none; thread = none }

abbrev pub moved_out : EventContext → EventContext
moved_out ctx =
    if has ctx.cb
    then record { scheduler = none; fiber = ctx.fiber; cb = none }
    else record { scheduler = none; fiber = none; cb = none }

-- `triggerEvent`: the new context, and the scheduler with the task that it gets. It asserts that the
-- event is waited for, and calls through the scheduler's pointer.
unfoldable pub trigger_event : FdContext → Event → Option (FdContext × (ℕ × Task))
trigger_event c event =
    let ctx = get_context c event in
    let c' =
      set_context (record c { events = without_event c.events event }) event (moved_out ctx) in
    if has_event c.events event
    then elim ctx.scheduler [ none ↦ none | some s ↦ some (c', (s, event_task ctx)) ]
    else none
