-- ===== src/Hook.antt =====
-- sylar/sylar/hook.cpp: the system calls that are replaced by ones that suspend the calling fiber.
-- The original calls are parameters: by `Files` for the flags, by their results for the others.
pub mod Status
pub mod Io
pub mod Sleep
pub mod Connect
pub mod Retry
pub mod Calls
mod Tests
use custom_net_framework.Prelude.{
  ℕ, zero, suc, ◌+◌, ◌*◌, ◌/◌, ◌<◌, ◌≤◌, ◌≡◌, ◌≢◌, Bool, true, false, not, ◌&&◌, ◌||◌, Option, none,
  some, List, [], ◌∷◌, ◌==◌, ltb, if◌then◌else◌, has, max_u64, u64, set,
}
use custom_net_framework.Fiber.{State}
use custom_net_framework.Timer.{TimerManager, add_condition_timer, cancel}
use custom_net_framework.IoManager.Events.{Event, read_event, write_event}
use custom_net_framework.IoManager.{Epoll, IoManager, add_event, cancel_event, cancel_all}
use custom_net_framework.FdManager.{Files, FdCtx, Direction, set_timeout, get_timeout, del}
use custom_net_framework.FdManager.{Flags}
use custom_net_framework.FdManager.Table.{ctx_at}

-- The values of errno that the hooks look at or set, as on Linux.
abbrev pub eintr : ℕ
eintr = 4

abbrev pub eagain : ℕ
eagain = 11

abbrev pub etimedout : ℕ
etimedout = 110

-- A context that is for a socket, and not closed.
abbrev pub is_managed : Option FdCtx → Bool
is_managed none = false
is_managed (some c) = not c.is_closed && c.is_socket

-- What a system call returns: a number, or -1 with errno.
pub data Result : Type 0 where
  value : ℕ → Result
  failed : ℕ → Result

-- How `do_io` begins.
pub data Start : Type 0 where
  direct : Start
  bad_descriptor : Start
  managed : (timeout : ℕ) → Start

pub start_io : Bool → Option FdCtx → Direction → Start
start_io false ctx timeout_so = direct
start_io true none timeout_so = direct
start_io true (some c) timeout_so =
    if c.is_closed
    then bad_descriptor
    else if not c.is_socket || c.user_nonblock
    then direct
    else managed (get_timeout c timeout_so)

-- The calls from `retry` on, when they return `results` one after the other: the result by which the
-- loop is left, and those that are left over. `none`: the loop has not ended yet.
pub call : List Result → Option (Result × List Result)
call [] = none
call (value n ∷ results) = some (value n, results)
call (failed e ∷ results) =
    let rest = call results in if e == eintr then rest else some (failed e, results)

-- Whether `do_io` waits after this result.
pub would_block : Result → Bool
would_block (value n) = false
would_block (failed e) = e == eagain

-- `setsockopt` with SO_RCVTIMEO or SO_SNDTIMEO, on the table; the original call follows.
pub set_socket_timeout :
    Bool → List (Option FdCtx) → ℕ → Direction → (tv_sec tv_usec : ℕ) → List (Option FdCtx)
set_socket_timeout false datas fd way tv_sec tv_usec = datas
set_socket_timeout true datas fd way tv_sec tv_usec = elim (ctx_at datas fd) [
  | none ↦ datas
  | some c ↦ set datas fd (some (set_timeout c way (u64 (tv_sec * 1000 + tv_usec / 1000))))
]

module _ (F : Files) where
  -- `fcntl(fd, F_SETFL, arg)`.
  pub set_status :
      F.State → List (Option FdCtx) → ℕ → Flags → (F.State × List (Option FdCtx)) × Bool
  set_status k datas fd arg = elim (ctx_at datas fd) [
    | none ↦ let r = F.set_flags k fd arg in ((r.0, datas), r.1)
    | some c ↦
        let arg' = if is_managed (some c) then record arg { nonblock = c.sys_nonblock } else arg in
        let r = F.set_flags k fd arg' in
        (
          (
            r.0,
            if is_managed (some c)
                then set datas fd (some (record c { user_nonblock = arg.nonblock }))
                else datas,
          ),
          r.1,
        )
  ]

  -- `fcntl(fd, F_GETFL)`.
  pub get_status : F.State → List (Option FdCtx) → ℕ → Flags
  get_status k datas fd = elim (ctx_at datas fd) [
    | none ↦ F.flags k fd
    | some c ↦
        if is_managed (some c)
        then record (F.flags k fd) { nonblock = c.user_nonblock }
        else F.flags k fd
  ]

  -- `ioctl(fd, FIONBIO, &arg)`.
  pub ioctl_nonblock :
      F.State → List (Option FdCtx) → ℕ → Bool → (F.State × List (Option FdCtx)) × Bool
  ioctl_nonblock k datas fd arg =
      let r = F.set_nonblock k fd arg in
      (
        (
          r.0,
          elim (ctx_at datas fd) [
            | none ↦ datas
            | some c ↦
                if is_managed (some c)
                then set datas fd (some (record c { user_nonblock = arg }))
                else datas
          ],
        ),
        r.1,
      )

-- The wait of one `do_io` for its event: `timer` is its condition timer, `cancelled` its timer_info.
pub record Wait : Type 0 where
  pub timer : Option ℕ
  pub cancelled : ℕ

module _ (E : Epoll) where
  abbrev pub World : Type 0
  World = IoManager (E.State) × TimerManager

  -- `if (timer) timer->cancel();`
  pub cancel_timer : TimerManager → Option ℕ → Option TimerManager
  cancel_timer m none = some m
  cancel_timer m (some p) = elim (cancel m p) [ none ↦ none | some (m', _) ↦ some m' ]

  -- `do_io` after EAGAIN, up to `YieldToHold`: the condition timer at `p`, then `addEvent`. It yields
  -- the wait, or nothing if `do_io` returns -1.
  pub await_io :
      World
      → (now p timeout cb weak : ℕ) → (fd : ℕ) → Event
      → (scheduler fiber : ℕ) → State
      → Option (World × Option Wait)
  unfolding cancel_timer
  await_io (io, m) now p timeout cb weak fd event scheduler fiber state =
      let timed = not (timeout == max_u64) in
      let m' = if timed then (add_condition_timer m now p timeout cb weak false).0 else m in
      let timer = if timed then some p else none in
      elim (add_event E io fd event none scheduler fiber state) [
        | none ↦ none
        | some (io', ok) ↦
            if ok
            then some ((io', m'), some (record { timer = timer; cancelled = 0 }))
            else elim (cancel_timer m' timer) [ none ↦ none | some m'' ↦ some ((io', m''), none) ]
      ]

  -- The callback of the condition timer, while the timer_info exists.
  pub on_timeout : IoManager (E.State) → Wait → ℕ → Event → Option (IoManager (E.State) × Wait)
  on_timeout io w fd event =
      if not (w.cancelled == 0) then some (io, w) else elim (cancel_event E io fd event) [
        | none ↦ none
        | some (io', _) ↦ some (io', record w { cancelled = etimedout })
      ]

  -- `do_io` when the fiber runs again: the timer is cancelled; -1 with this errno, or `retry`.
  pub resume_io : TimerManager → Wait → Option (TimerManager × Option Result)
  unfolding cancel_timer
  resume_io m w = elim (cancel_timer m w.timer) [
    | none ↦ none
    | some m' ↦ some (m', if w.cancelled == 0 then none else some (failed w.cancelled))
  ]

  -- `close`, before the original call; `iom` is the calling thread's manager, if it has one.
  pub close_fd :
      Bool
      → Option (IoManager (E.State))
      → List (Option FdCtx)
      → ℕ
      → Option (Option (IoManager (E.State)) × List (Option FdCtx))
  close_fd false iom datas fd = some (iom, datas)
  close_fd true none datas fd = some (none, if has (ctx_at datas fd) then del datas fd else datas)
  close_fd true (some io) datas fd =
      if has (ctx_at datas fd)
      then elim (cancel_all E io fd) [ none ↦ none | some (io', _) ↦ some (some io', del datas fd) ]
      else some (some io, datas)
