-- ===== src/Hook/Io.antt =====
-- `do_io`: the wait for an event, its timeout, and `close`.
use custom_net_framework.Prelude.{
  ℕ, zero, suc, ◌≡◌, ◌≢◌, Bool, true, false, not, ◌&&◌, Option, none, some, List, ◌∷◌, ◌++◌, ◌==◌,
  if◌then◌else◌, has, max_u64, arith, refl, ap, ◌∙◌, inl, inr, Bool-cases, Option-cases, contains,
  replicate,
}
use custom_net_framework.Fiber.{State, is_exec}
use custom_net_framework.Timer.Set.{on_timer}
use custom_net_framework.Timer.{TimerManager, add_condition_timer}
use custom_net_framework.Timer.Steps.{Reach, next, adds, cancels, cancel_lem}
use custom_net_framework.IoManager.Events.{Event, has_event, with_event, without_event}
use custom_net_framework.IoManager.Books.{events_at}
use custom_net_framework.IoManager.Mirror.{Inv}
use custom_net_framework.IoManager.Add.{add_event_lem}
use custom_net_framework.IoManager.Delete.{Does}
use custom_net_framework.IoManager.Cancel.{cancel_event_lem, cancel_all_lem, wakes_at}
use custom_net_framework.IoManager.{Epoll, IoManager}
use custom_net_framework.FdManager.{FdCtx, del}
use custom_net_framework.FdManager.Table.{ctx_at, ctx_at-del}
use custom_net_framework.Hook.{
  Result, value, failed, call, eintr, etimedout, Wait, cancel_timer, await_io, on_timeout,
  resume_io, close_fd,
}

unfoldable pub is_interrupt : Result → Bool
is_interrupt (value n) = false
is_interrupt (failed e) = e == eintr

-- Any number of interrupted calls are repeated, and the first other result is the one that is used.
pub call_lem :
    (n : ℕ) (r : Result) (rest : List Result)
    → is_interrupt r ≡ false
    → call (replicate n (failed eintr) ++ (r ∷ rest)) ≡ some (r, rest)
unfolding call is_interrupt
call_lem zero (value n) rest h = refl
call_lem zero (failed e) rest h = ground (arith, h)
call_lem (suc n) r rest h = ground (arith, call_lem n r rest h)

module _ (E : Epoll) where
  cancel_timer_lem :
      {start : ℕ} {m : TimerManager} (timer : Option ℕ)
      → Reach start m
      → (m' : TimerManager) × (cancel_timer E m timer ≡ some m')
        × Reach start m'
        × ((p : ℕ) → timer ≡ some p → contains p m'.timers ≡ false)
        × ((q : ℕ) → timer ≢ some q → contains q m'.timers ≡ contains q m.timers)
  unfolding cancel_timer
  cancel_timer_lem {start} {m} none r = (m, refl, r, λ p e. cc, λ q _. refl)
  cancel_timer_lem {start} {m} (some p) r =
      let (m', e, _, c) = cancel_lem p r in
      (
        m',
        ground (arith, e),
        next r (cancels p e),
        λ q f. ground (arith, f, c q),
        λ q ne. ground (arith, ne, c q),
      )

  -- `do_io` after EAGAIN, in states that keep their invariants, in a running fiber, for an event
  -- that the descriptor does not wait for yet, and with a fresh address for the timer: no
  -- assertion fails, and the states keep their invariants. Either the descriptor gets the event
  -- and the fiber is to yield, or nothing changes for the descriptors and the timer is not left
  -- behind.
  pub await_io_lem :
      {start : ℕ} (pipe : ℕ) (io : IoManager (E.State)) (m : TimerManager)
      (now p timeout cb weak fd : ℕ) (e : Event) (scheduler fiber : ℕ) (state : State)
      → Inv E pipe io
      → Reach start m
      → has_event (events_at io.fd_contexts fd) e ≡ false
      → is_exec state ≡ true
      → p ≢ 0
      → contains p m.timers ≡ false
      → (io' : IoManager (E.State)) × (m' : TimerManager) × (w : Option Wait) × (await_io E
            (io, m)
            now
            p
            timeout
            cb
            weak
            fd
            e
            scheduler
            fiber
            state
          ≡ some ((io', m'), w))
        × Inv E pipe io'
        × Reach start m'
        × ((j : ℕ)
            → events_at io'.fd_contexts j ≡ (
                if has w && (fd == j)
                then with_event (events_at io.fd_contexts fd) e
                else events_at io.fd_contexts j))
        × (w ≡ none → contains p m'.timers ≡ false)
  unfolding await_io add_condition_timer
  await_io_lem {start} pipe io m now p timeout cb weak fd e scheduler fiber state v r h run nz
        fresh =
      let (io', ok, added, inv, events, _) =
        add_event_lem E pipe io fd e none scheduler fiber state v h (ground (arith, run)) in
      elim (Bool-cases ok) [
        | inl y ↦ (
          io',
          m1,
          some (record { timer = timer; cancelled = 0 }),
          ground (arith, added, y),
          inv,
          r1,
          λ j. events j ∙ ground (arith, y),
          λ z. cc,
        )
        | inr n ↦
            let (m2, c, r2, gone, kept) = cancel_timer_lem timer r1 in
            (
              io',
              m2,
              none,
              ground (arith, added, n, c),
              inv,
              r2,
              λ j. events j ∙ ground (arith, n),
              λ _. elim (Bool-cases timed) [
                | inl t ↦ gone p (ap (λ b. if b then some p else none) t)
                | inr u ↦
                    kept p (λ z. absurd (ground (arith, u, z)))
                    ∙ ap
                        (λ (b : Bool).
                          contains p
                            (if b
                              then (add_condition_timer m now p timeout cb weak false).0
                              else m).timers)
                        u
                    ∙ fresh
              ],
            )
      ]
    where
      timed : Bool
      timed = not (timeout == max_u64)

      timer : Option ℕ
      timer = if timed then some p else none

      m1 : TimerManager
      m1 = if timed then (add_condition_timer m now p timeout cb weak false).0 else m

      r1 : Reach start m1
      r1 = armed timed
        where
          armed :
              (b : Bool)
              → Reach start (if b then (add_condition_timer m now p timeout cb weak false).0 else m)
          armed true = next r (adds now p timeout (on_timer weak cb) false nz fresh)
          armed false = r

  -- A wait whose timer fires for the first time, in states that keep their invariants: if
  -- `cancelEvent` succeeds, what waits for the event is scheduled. Another firing would change
  -- nothing, and when the fiber runs again `do_io` cancels the timer and fails with ETIMEDOUT.
  pub on_timeout_lem :
      {start : ℕ} {m : TimerManager} (pipe : ℕ) (io : IoManager (E.State)) (w : Wait) (fd : ℕ)
      (e : Event)
      → Inv E pipe io
      → Reach start m
      → w.cancelled ≡ 0
      → (io' : IoManager (E.State)) × (ok : Bool) × (w' : Wait) × (m' : TimerManager) × (on_timeout
            E io w fd e
          ≡ some (io', w'))
        × Does E pipe io io' ok fd
            (without_event (events_at io.fd_contexts fd) e)
            (wakes_at io.fd_contexts fd e)
        × (on_timeout E io' w' fd e ≡ some (io', w'))
        × (resume_io E m w' ≡ some (m', some (failed etimedout)))
        × Reach start m'
        × ((p : ℕ) → w.timer ≡ some p → contains p m'.timers ≡ false)
  unfolding on_timeout resume_io
  on_timeout_lem pipe io w fd e v r z =
      let (io', ok, run, does, _) = cancel_event_lem E pipe io fd e v in
      let (m', c, r', gone, _) = cancel_timer_lem w.timer r in
      (
        io',
        ok,
        record w { cancelled = etimedout },
        m',
        ground (arith, z, run),
        does,
        refl,
        ground (arith, c),
        r',
        gone,
      )

  -- `close` by a thread with hooks and a manager that keeps its invariant: no assertion fails, the
  -- descriptor's context is gone and the others stay, the invariant is kept, and no other
  -- descriptor's events change.
  pub close_fd_lem :
      (pipe : ℕ) (io : IoManager (E.State)) (datas : List (Option FdCtx)) (fd : ℕ)
      → Inv E pipe io
      → (io' : IoManager (E.State)) × (datas' : List (Option FdCtx)) × (close_fd E true
            (some io)
            datas
            fd
          ≡ some (some io', datas'))
        × Inv E pipe io'
        × ((j : ℕ) → ctx_at datas' j ≡ (if fd == j then none else ctx_at datas j))
        × ((j : ℕ) → fd ≢ j → events_at io'.fd_contexts j ≡ events_at io.fd_contexts j)
  unfolding close_fd
  close_fd_lem pipe io datas fd v = elim (Option-cases (ctx_at datas fd)) [
    | inl n ↦ (io, datas, ground (arith, n), v, λ j. ground (arith, n), λ j ne. refl)
    | inr (c, y) ↦
        let (io', ok, run, does, _) = cancel_all_lem E pipe io fd v in
        (
          io',
          del datas fd,
          ground (arith, y, run),
          does.inv,
          ctx_at-del datas fd,
          λ j ne. does.events j ∙ ground (arith, ne),
        )
  ]

  -- A fiber that runs again after its wait.
  pub resume_io_lem :
      {start : ℕ} {m : TimerManager} (w : Wait)
      → Reach start m
      → (m' : TimerManager) × (resume_io E m w
          ≡ some (m', if w.cancelled == 0 then none else some (failed w.cancelled)))
        × Reach start m'
        × ((p : ℕ) → w.timer ≡ some p → contains p m'.timers ≡ false)
  unfolding resume_io
  resume_io_lem w r =
      let (m', c, r', gone, _) = cancel_timer_lem w.timer r in (m', ground (arith, c), r', gone)
