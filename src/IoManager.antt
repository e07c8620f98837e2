-- ===== src/IoManager.antt =====
-- sylar/sylar/iomanager.h and iomanager.cpp: waiting for events of file descriptors by epoll. The
-- kernel's epoll is the parameter `Epoll`. A failed SYLAR_ASSERT, or an access out of bounds, is `none`.
pub mod Kernel
pub mod Report
pub mod Events
pub mod Context
pub mod Slots
pub mod Books
pub mod Grow
pub mod Mirror
pub mod Trigger
pub mod Add
pub mod Delete
pub mod Cancel
pub mod Idle
pub mod Construct
pub mod Poll
pub mod Round
pub mod Sample
mod Tests
use custom_net_framework.Prelude.{
  ℕ, zero, suc, ◌+◌, ◌-◌, ◌*◌, ◌/◌, ◌^◌, ◌≡◌, ◌≢◌, Bool, true, false, not, ◌&&◌, ◌||◌, Option, none,
  some, List, [], ◌∷◌, ◌++◌, ◌==◌, ltb, leb, if◌then◌else◌, has, u64, sub64, get_elem?, length,
  take, set, bit_and, bit_or, and_not,
}
use custom_net_framework.Fiber.{State, is_exec}
use custom_net_framework.Scheduler.{Task}
pub use Kernel.{Op, add, mod_op, del, requested, Epoll}
use Events.{Event, read_event, write_event, code, has_event, with_event, without_event}
use Context.{
  EventContext, FdContext, get_context, set_context, reset_context, trigger_event, fresh_context,
}

-- `EPOLLIN`, `EPOLLOUT`, `EPOLLERR | EPOLLHUP` and `EPOLLET`.
abbrev pub epoll_in : ℕ
epoll_in = 0x001

abbrev pub epoll_out : ℕ
epoll_out = 0x004

abbrev pub epoll_err_hup : ℕ
epoll_err_hup = 0x018

abbrev pub epoll_et : ℕ
epoll_et = 2 ^ 31

-- `IOManager`, with the kernel's state and the calls of `schedule` that it has made: the scheduler
-- and the task, oldest first.
pub record IoManager (K : Type 0) : Type 0 where
  pub kernel : K
  pub fd_contexts : List FdContext
  pub pending_event_count : ℕ
  pub scheduled : List (ℕ × Task)

-- The `n` contexts that `contextResize` makes for the descriptors from `from` on.
pub fresh_contexts : ℕ → ℕ → List FdContext
fresh_contexts from zero = []
fresh_contexts from (suc n) = fresh_context from ∷ fresh_contexts (suc from) n

-- `contextResize`.
pub context_resize : ℕ → List FdContext → List FdContext
unfolding fresh_contexts
context_resize size cs = take size cs ++ fresh_contexts (length cs) (size - length cs)

-- The contexts that `addEvent` works on.
pub ensure_context : ℕ → List FdContext → List FdContext
unfolding context_resize
ensure_context fd cs = if ltb fd (length cs) then cs else context_resize (fd * 3 / 2) cs

abbrev pub next_op : ℕ → Op → Op
next_op events otherwise = if events == 0 then otherwise else mod_op

module _ (E : Epoll) where
  abbrev pub Io : Type 0
  Io = IoManager (E.State)

  -- `epoll_ctl` on the manager's descriptor.
  abbrev pub ctl_call : Io → Op → ℕ → ℕ → Io × Bool
  ctl_call io op fd mask = let r = E.ctl io.kernel op fd mask in (record io { kernel = r.0 }, r.1)

  -- The constructor, before it starts the threads: `pipe` is the reading end of the pipe.
  pub construct : E.State → ℕ → Option Io
  unfolding context_resize
  construct k pipe =
      let r = E.ctl k add pipe (bit_or epoll_in epoll_et) in
      if r.1
      then some (record {
        kernel = r.0;
        fd_contexts = context_resize 32 [];
        pending_event_count = 0;
        scheduled = [];
      })
      else none

  -- `--m_pendingEventCount` and the context written back.
  abbrev pub settle : Io → ℕ → FdContext → List (ℕ × Task) → Io
  settle io fd c tasks = record io {
    fd_contexts = set io.fd_contexts fd c;
    pending_event_count = sub64 io.pending_event_count 1;
    scheduled = io.scheduled ++ tasks;
  }

  -- What `addEvent` stores for the event: the callback, or else the calling fiber, which is running.
  pub event_target : ℕ → ℕ → State → Option ℕ → Option EventContext
  event_target scheduler fiber state (some cb) =
      some (record { scheduler = some scheduler; fiber = none; cb = some cb })
  event_target scheduler fiber state none =
      if is_exec state
      then some (record { scheduler = some scheduler; fiber = some fiber; cb = none })
      else none

  -- `addEvent` after the successful call of `epoll_ctl`.
  pub store_event : Io → ℕ → FdContext → Event → Option EventContext → Option Io
  store_event io fd c event target =
      let old = get_context c event in
      if has old.scheduler || has old.fiber || has old.cb then none else elim target [
        | none ↦ none
        | some ctx ↦ some (record io {
          fd_contexts =
              set io.fd_contexts fd
                (set_context (record c { events = with_event c.events event }) event ctx);
          pending_event_count = u64 (io.pending_event_count + 1);
        })
      ]

  -- `addEvent` under the lock of the context.
  pub add_to_context : Io → ℕ → FdContext → Event → Option EventContext → Option (Io × Bool)
  unfolding store_event
  add_to_context io fd c event target =
      if has_event c.events event
      then none
      else (let r =
            ctl_call io (next_op c.events add) fd
              (bit_or (bit_or epoll_et c.events) (code event)) in
          if r.1
          then elim (store_event r.0 fd c event target) [
            | none ↦ none
            | some io' ↦ some (io', true)
          ]
          else some (r.0, false))

  -- `IOManager::addEvent`: the new state, and whether it returned 0.
  pub add_event : Io → ℕ → Event → Option ℕ → (scheduler fiber : ℕ) → State → Option (Io × Bool)
  unfolding add_to_context ensure_context event_target
  add_event io fd event cb scheduler fiber state =
      let cs = ensure_context fd io.fd_contexts in
      elim (get_elem? cs fd) [
        | none ↦ none
        | some c ↦
            add_to_context (record io { fd_contexts = cs }) fd c event
              (event_target scheduler fiber state cb)
      ]

  -- `delEvent` under the lock of the context.
  pub del_from_context : Io → ℕ → FdContext → Event → Io × Bool
  del_from_context io fd c event =
      let new_events = without_event c.events event in
      let r = ctl_call io (next_op new_events del) fd (bit_or epoll_et new_events) in
      if not (has_event c.events event)
      then (io, false)
      else if not r.1
      then (r.0, false)
      else (settle r.0 fd (reset_context (record c { events = new_events }) event) [], true)

  -- `IOManager::delEvent`.
  pub del_event : Io → ℕ → Event → Io × Bool
  unfolding del_from_context
  del_event io fd event = elim (get_elem? io.fd_contexts fd) [
    | none ↦ (io, false)
    | some c ↦ del_from_context io fd c event
  ]

  -- `triggerEvent` and `--m_pendingEventCount`, on the context at `fd`.
  pub trigger : Io → ℕ → FdContext → Event → Option (Io × FdContext)
  unfolding trigger_event
  trigger io fd c event = elim (trigger_event c event) [
    | none ↦ none
    | some (c', task) ↦ some (settle io fd c' (task ∷ []), c')
  ]

  -- `cancelEvent` under the lock of the context.
  pub cancel_in_context : Io → ℕ → FdContext → Event → Option (Io × Bool)
  unfolding trigger
  cancel_in_context io fd c event =
      let new_events = without_event c.events event in
      let r = ctl_call io (next_op new_events del) fd (bit_or epoll_et new_events) in
      if not (has_event c.events event)
      then some (io, false)
      else if not r.1
      then some (r.0, false)
      else elim (trigger r.0 fd c event) [ none ↦ none | some (io', _) ↦ some (io', true) ]

  -- `IOManager::cancelEvent`.
  pub cancel_event : Io → ℕ → Event → Option (Io × Bool)
  unfolding cancel_in_context
  cancel_event io fd event = elim (get_elem? io.fd_contexts fd) [
    | none ↦ some (io, false)
    | some c ↦ cancel_in_context io fd c event
  ]

  -- `if(events & E) { triggerEvent(E); --m_pendingEventCount; }`, where `wanted` is the test.
  pub trigger_if : Bool → Io → ℕ → FdContext → Event → Option (Io × FdContext)
  unfolding trigger
  trigger_if true io fd c event = trigger io fd c event
  trigger_if false io fd c event = some (io, c)

  -- `cancelAll` after the successful call of `epoll_ctl`.
  pub trigger_all : Io → ℕ → FdContext → Option (Io × Bool)
  unfolding trigger_if
  trigger_all io fd c = elim (trigger_if (has_event c.events read_event) io fd c read_event) [
    | none ↦ none
    | some (io', c') ↦ elim (trigger_if (has_event c'.events write_event) io' fd c' write_event) [
      | none ↦ none
      | some (io'', c'') ↦ if c''.events == 0 then some (io'', true) else none
    ]
  ]

  -- `IOManager::cancelAll`.
  pub cancel_all : Io → ℕ → Option (Io × Bool)
  unfolding trigger_all
  cancel_all io fd = elim (get_elem? io.fd_contexts fd) [
    | none ↦ some (io, false)
    | some c ↦
        let r = ctl_call io del fd 0 in
        if c.events == 0
        then some (io, false)
        else if not r.1
        then some (r.0, false)
        else trigger_all r.0 fd c
  ]
