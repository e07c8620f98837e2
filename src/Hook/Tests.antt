-- ===== src/Hook/Tests.antt =====
-- Hooked calls on the sample states.
use custom_net_framework.Prelude.{
  ℕ, ◌≡◌, ◌≢◌, ◌↔◌, ◌⊎◌, ◌++◌, Bool, true, false, ◌&&◌, Option, none, some, List, [], ◌∷◌, has,
  if◌then◌else◌, ◌==◌, refl, arith, contains, replicate,
}
use custom_net_framework.Fiber.{exec}
use custom_net_framework.Timer.{TimerManager, init}
use custom_net_framework.Timer.Steps.{Reach, here}
use custom_net_framework.IoManager.Events.{read_event, with_event, without_event}
use custom_net_framework.IoManager.Books.{events_at}
use custom_net_framework.IoManager.Cancel.{wakes_at}
use custom_net_framework.IoManager.Delete.{Does}
use custom_net_framework.IoManager.Mirror
use custom_net_framework.IoManager.{IoManager}
use custom_net_framework.IoManager.Sample.{table, new, one, new-Inv, one-Inv, new_idle}
use custom_net_framework.FdManager.{Flags, FdCtx}
use custom_net_framework.FdManager.Table.{ctx_at, Inv}
use custom_net_framework.FdManager.Sample.{sockets, kernel, datas, datas-Inv, first_ctx, open_fds}
use custom_net_framework.Hook.{
  is_managed, set_status, get_status, ioctl_nonblock, Wait, await_io, on_timeout, resume_io,
  close_fd, call, value, failed, eintr, etimedout,
}
use custom_net_framework.Hook.Status.{IsAlone, status_roundtrip, ioctl_nonblock_lem}
use custom_net_framework.Timer.Set.{plain}
use custom_net_framework.Prelude.{◌+◌, ◌*◌, ◌/◌, ◌^◌, ◌<◌}
use custom_net_framework.Hook.{Result}
use custom_net_framework.Hook.Sleep.{
  sleep_ms, usleep_ms, nanosleep_ms, suspend, sleep_times, suspend_lem,
}
use custom_net_framework.Hook.Connect.{connect_result, finish_connect, finish_connect_lem}
use custom_net_framework.Hook.{eagain}
use custom_net_framework.Prelude.{◌≤◌}
use custom_net_framework.Hook.Retry.{Turn}
use custom_net_framework.Hook.Io.{
  await_io_lem, on_timeout_lem, close_fd_lem, call_lem, is_interrupt,
}

abbrev blocking : Flags
blocking = record { nonblock = false; rest = 0 }

status_roundtrip_example :
    let r = set_status sockets kernel datas 0 blocking in
    ((get_status sockets r.0.0 r.0.1 0).nonblock ≡ false)
    × ((r.0.0 0).nonblock ≡ (if is_managed (ctx_at datas 0) then true else false))
    × (Inv sockets r.0.0 r.0.1 ↔ (
        (is_managed (ctx_at datas 0) ≡ true) ⊎ ((false ≡ true) ⊎ IsAlone sockets kernel datas 0)))
unfolding set_status
status_roundtrip_example = status_roundtrip sockets kernel datas 0 blocking datas-Inv open_fds refl

ioctl_nonblock_lem_example :
    let r = ioctl_nonblock sockets kernel datas 0 false in
    ((get_status sockets r.0.0 r.0.1 0).nonblock ≡ false)
    × ((r.0.0 0).nonblock ≡ false)
    × (Inv sockets r.0.0 r.0.1 ↔ (false ≡ true))
unfolding ioctl_nonblock
ioctl_nonblock_lem_example =
    ioctl_nonblock_lem sockets kernel datas 0 first_ctx false datas-Inv refl refl refl

start_lacks : contains 9 (init 1000).timers ≡ false
unfolding init
start_lacks = refl

await_io_lem_example :
    (io' : IoManager (ℕ → Option ℕ)) × (m' : TimerManager) × (w : Option Wait) × (await_io table
        (new, init 1000)
        1001
        9
        50
        3
        4
        5
        read_event
        1
        2
        exec
      ≡ some ((io', m'), w))
    × Mirror.Inv table 3 io'
    × Reach 1000 m'
    × ((j : ℕ)
        → events_at io'.fd_contexts j ≡ (
            if has w && (5 == j)
            then with_event (events_at new.fd_contexts 5) read_event
            else events_at new.fd_contexts j))
    × (w ≡ none → contains 9 m'.timers ≡ false)
await_io_lem_example =
    await_io_lem table 3 new (init 1000) 1001 9 50 3 4 5 read_event 1 2 exec new-Inv here new_idle
      refl (omega arith) start_lacks

abbrev wait : Wait
wait = record { timer = some 9; cancelled = 0 }

on_timeout_lem_example :
    (io' : IoManager (ℕ → Option ℕ)) × (ok : Bool) × (w' : Wait) × (m' : TimerManager) × (on_timeout
        table one wait 5 read_event
      ≡ some (io', w'))
    × Does table 3 one io' ok 5
        (without_event (events_at one.fd_contexts 5) read_event)
        (wakes_at one.fd_contexts 5 read_event)
    × (on_timeout table io' w' 5 read_event ≡ some (io', w'))
    × (resume_io table (init 1000) w' ≡ some (m', some (failed etimedout)))
    × Reach 1000 m'
    × ((p : ℕ) → some 9 ≡ some p → contains p m'.timers ≡ false)
on_timeout_lem_example = on_timeout_lem table 3 one wait 5 read_event one-Inv here refl

close_fd_lem_example :
    (io' : IoManager (ℕ → Option ℕ)) × (datas' : List (Option FdCtx)) × (close_fd table true
        (some one)
        datas
        0
      ≡ some (some io', datas'))
    × Mirror.Inv table 3 io'
    × ((j : ℕ) → ctx_at datas' j ≡ (if 0 == j then none else ctx_at datas j))
    × ((j : ℕ) → 0 ≢ j → events_at io'.fd_contexts j ≡ events_at one.fd_contexts j)
close_fd_lem_example = close_fd_lem table 3 one datas 0 one-Inv

call_lem_example : call (replicate 3 (failed eintr) ++ (value 10 ∷ [])) ≡ some (value 10, [])
unfolding is_interrupt
call_lem_example = call_lem 3 (value 10) [] refl

-- 50 days, in seconds, is more than sleep can ask for.
sleep_times_example :
    let ms = 2 * 1000 + 1500000 / 1000 / 1000 in
    ((sleep_ms 4320000 ≡ 4320000 * 1000) ↔ (4320000 * 1000 < 2 ^ 32))
    × ((usleep_ms 1999 * 1000 ≤ 1999) × (1999 < usleep_ms 1999 * 1000 + 1000))
    × (ms < 2 ^ 31 → nanosleep_ms 2 1500000 ≡ ms)
    × (2 ^ 31 ≤ ms → ms < 2 ^ 32 → 2 ^ 63 < nanosleep_ms 2 1500000)
sleep_times_example = sleep_times 4320000 1999 2 1500000

suspend_lem_example :
    let m' = suspend (init 1000) 1001 9 50 4 in
    Reach 1000 m'
    × (contains 9 m'.timers ≡ true)
    × ((m'.heap 9).next ≡ 1051)
    × ((m'.heap 9).cb ≡ some (plain 4))
suspend_lem_example = suspend_lem 1001 9 50 4 here (omega arith) start_lacks (omega arith)

finish_connect_lem_example :
    (m' : TimerManager) × (r : Result) × (finish_connect table (init 1000) wait (value 111)
      ≡ some (m', r))
    × Reach 1000 m'
    × ((p : ℕ) → wait.timer ≡ some p → contains p m'.timers ≡ false)
    × ((r ≡ value 0) ↔ ((wait.cancelled ≡ 0) × (value 111 ≡ value 0)))
    × (wait.cancelled ≢ 0 → r ≡ failed wait.cancelled)
    × (wait.cancelled ≡ 0 → r ≡ connect_result (value 111))
finish_connect_lem_example = finish_connect_lem table wait (value 111) here

-- An address that is beyond those of all timers.
abbrev fresh_address : List ℕ → ℕ
fresh_address [] = 1
fresh_address (p ∷ s) = p + fresh_address s

-- The call is interrupted and then has no data; the event comes, and again there is no data; then
-- the timer fires.
abbrev turn_at : List Result → Bool → Turn table
turn_at rs fires = record {
  results = rs;
  now = 1001;
  address = λ m. fresh_address m.timers;
  state = exec;
  fires = fires;
  meanwhile = λ w. (new, init 1000);
}

abbrev impatient : FdCtx
impatient = record first_ctx { fd = 5; recv_timeout = 50 }

abbrev some_turns : List (Turn table)
some_turns =
    turn_at (failed eintr ∷ failed eagain ∷ []) false ∷ turn_at (failed eagain ∷ []) true ∷ []
