-- ===== src/Hook/Retry/Ending.antt =====
-- How `do_io` ends.
use custom_net_framework.Prelude.{
  ℕ, ◌≡◌, ◌≢◌, true, false, not, ◌&&◌, none, some, List, [], ◌∷◌, ◌==◌, ==_iff, if◌then◌else◌, has,
  max_u64, All, arith, refl, ap, ◌∙◌, inl, inr, Bool-cases, Option-cases, contains,
}
use custom_net_framework.Fiber.{State, is_exec}
use custom_net_framework.Timer.{TimerManager, add_condition_timer}
use custom_net_framework.Timer.Steps.{Reach}
use custom_net_framework.IoManager.Events.{Event, has_event}
use custom_net_framework.IoManager.Books.{events_at}
use custom_net_framework.IoManager.Mirror.{Inv}
use custom_net_framework.IoManager.{Epoll, IoManager, add_event}
use custom_net_framework.Hook.{
  World, cancel_timer, Result, value, failed, call, would_block, eagain, etimedout, Wait, await_io,
  resume_io,
}
use custom_net_framework.Hook.Io.{is_interrupt, await_io_lem, resume_io_lem}
use custom_net_framework.Hook.Retry.{Ended, returned, refused, suspended, Turn, woken, retry}

module _ (E : Epoll) where
  -- A turn in which the fiber runs on its thread, the timer gets a fresh address, and the other
  -- threads keep the invariants and take the event away before the fiber runs again.
  pub record IsTurn (start pipe fd : ℕ) (e : Event) (t : Turn E) : Type 0 where
    pub runs : is_exec t.state ≡ true
    pub fresh : (m : TimerManager) → (t.address m ≢ 0) × (contains (t.address m) m.timers ≡ false)
    pub keeps :
        (io : IoManager (E.State)) (m : TimerManager)
        → Inv E pipe io
        → Reach start m
        → Inv E pipe (t.meanwhile (io, m)).0
          × Reach start (t.meanwhile (io, m)).1
          × (has_event (events_at (t.meanwhile (io, m)).0.fd_contexts fd) e ≡ false)

  -- How `do_io` may end after some turns, with this timeout.
  pub data Ends (timeout : ℕ) : List (Turn E) → Ended → Type 0 where
    waits : Ends timeout [] suspended
    calls :
        {t : Turn E} {ts : List (Turn E)} → call t.results ≡ none → Ends timeout (t ∷ ts) suspended
    returns :
        {t : Turn E} {ts : List (Turn E)} (x : Result) (rest : List Result)
        → call t.results ≡ some (x, rest)
        → would_block x ≡ false
        → is_interrupt x ≡ false
        → Ends timeout (t ∷ ts) (returned x)
    refuses :
        {t : Turn E} {ts : List (Turn E)} (rest : List Result)
        → call t.results ≡ some (failed eagain, rest)
        → Ends timeout (t ∷ ts) refused
    times_out :
        {t : Turn E} {ts : List (Turn E)} (rest : List Result)
        → call t.results ≡ some (failed eagain, rest)
        → timeout ≢ max_u64
        → t.fires ≡ true
        → Ends timeout (t ∷ ts) (returned (failed etimedout))
    retries :
        {t : Turn E} {ts : List (Turn E)} {z : Ended} (rest : List Result)
        → call t.results ≡ some (failed eagain, rest)
        → (t.fires && not (timeout == max_u64)) ≡ false
        → Ends timeout ts z
        → Ends timeout (t ∷ ts) z

  call_not_interrupt :
      (rs : List Result) (x : Result) (rest : List Result)
      → call rs ≡ some (x, rest)
      → is_interrupt x ≡ false
  unfolding call is_interrupt
  call_not_interrupt [] x rest h = ground (arith, h)
  call_not_interrupt (value n ∷ rs) x rest h = ground (arith, h)
  call_not_interrupt (failed e ∷ rs) x rest h = ground (arith, h, call_not_interrupt rs x rest)

  would_block-eagain : (x : Result) → would_block x ≡ true → x ≡ failed eagain
  unfolding would_block
  would_block-eagain (value n) h = ground (arith, h)
  would_block-eagain (failed e) h = ap failed ((==_iff e eagain).0 h)

  pub await_io-wait :
      (w : World E) (now p timeout cb weak fd : ℕ) (e : Event) (scheduler fiber : ℕ) (state : State)
      (w' : World E) (wait : Wait)
      → await_io E w now p timeout cb weak fd e scheduler fiber state ≡ some (w', some wait)
      → (wait.cancelled ≡ 0) × (has wait.timer ≡ not (timeout == max_u64))
  unfolding await_io
  await_io-wait (io, m) now p timeout cb weak fd e scheduler fiber state w' wait h =
      elim (Option-cases (add_event E io fd e none scheduler fiber state)) [
        | inl n ↦ absurd (ground (arith, n, h))
        | inr ((io', ok), y) ↦ elim (Bool-cases ok) [
          | inl o ↦ elim (Bool-cases (timeout == max_u64)) [
            | inl q ↦ ground (arith, y, o, q, h)
            | inr q ↦ ground (arith, y, o, q, h)
          ]
          | inr o ↦
              elim (Option-cases (
                cancel_timer E
                  (if not (timeout == max_u64)
                    then (add_condition_timer m now p timeout cb weak false).0
                    else m)
                  (if not (timeout == max_u64) then some p else none))) [
                    | inl q ↦ absurd (ground (arith, y, o, q, h))
                    | inr (m', q) ↦ absurd (ground (arith, y, o, q, h))
                  ]
        ]
      ]

  -- The end of a turn whose wait is over.
  resumed :
      (start timeout : ℕ) (t : Turn E) (m : TimerManager) (wait : Wait)
      → wait.cancelled ≡ 0
      → has wait.timer ≡ not (timeout == max_u64)
      → Reach start m
      → (m' : TimerManager) × (resume_io E m (woken E t wait)
          ≡ some
              (m', if t.fires && not (timeout == max_u64) then some (failed etimedout) else none))
        × Reach start m'
  resumed start timeout t m wait z k r =
      let (m', e, r', _) = resume_io_lem E (woken E t wait) r in (m', e ∙ ground (arith, z, k), r')

  pub retry_lem :
      (start pipe timeout cb weak fd : ℕ) (e : Event) (scheduler fiber : ℕ) (ts : List (Turn E))
      (io : IoManager (E.State)) (m : TimerManager)
      → All (IsTurn start pipe fd e) ts
      → Inv E pipe io
      → Reach start m
      → has_event (events_at io.fd_contexts fd) e ≡ false
      → (io' : IoManager (E.State)) × (m' : TimerManager) × (z : Ended) × (retry E timeout cb weak
            fd e scheduler fiber ts
            (io, m)
          ≡ some ((io', m'), z))
        × Inv E pipe io'
        × Reach start m'
        × Ends timeout ts z
  unfolding retry
  retry_lem start pipe timeout cb weak fd e scheduler fiber [] io m a v r h =
      (io, m, suspended, refl, v, r, waits)
  retry_lem start pipe timeout cb weak fd e scheduler fiber (t ∷ ts) io m a v r h =
      elim (Option-cases (call t.results)) [
        | inl n ↦ (io, m, suspended, ground (arith, n), v, r, calls n)
        | inr ((x, rest), c) ↦ elim (Bool-cases (would_block x)) [
          | inr n ↦ (
            io,
            m,
            returned x,
            ground (arith, c, n),
            v,
            r,
            returns x rest c n (call_not_interrupt t.results x rest c),
          )
          | inl y ↦
              let turn : IsTurn start pipe fd e t = a.0 in
              let again : call t.results ≡ some (failed eagain, rest) =
                c ∙ ap (λ z. some (z, rest)) (would_block-eagain x y) in
              let (io1, m1, w, run, v1, r1, _, _) =
                await_io_lem E pipe io m t.now (t.address m) timeout cb weak fd e scheduler fiber
                  t.state v r h turn.runs (turn.fresh m).0 (turn.fresh m).1 in
              elim (Option-cases w) [
                | inl n ↦
                    (io1, m1, refused, ground (arith, c, y, run, n), v1, r1, refuses rest again)
                | inr (wait, s) ↦
                    let waited = run ∙ ap (λ o. some ((io1, m1), o)) s in
                    let (zero_, timed) =
                      await_io-wait (io, m) t.now (t.address m) timeout cb weak fd e scheduler fiber
                        t.state (io1, m1) wait waited in
                    let (v2, r2, h2) = turn.keeps io1 m1 v1 r1 in
                    let (m3, res, r3) =
                      resumed start timeout t (t.meanwhile (io1, m1)).1 wait zero_ timed r2 in
                    elim (Bool-cases (t.fires && not (timeout == max_u64))) [
                      | inl o ↦ (
                        (t.meanwhile (io1, m1)).0,
                        m3,
                        returned (failed etimedout),
                        ground (arith, c, y, waited, res, o),
                        v2,
                        r3,
                        times_out rest again (ground (arith, o)) (ground (arith, o)),
                      )
                      | inr o ↦
                          let (io4, m4, z, more, v4, r4, ends) =
                            retry_lem start pipe timeout cb weak fd e scheduler fiber ts
                              (t.meanwhile (io1, m1)).0 m3 a.1 v2 r3 h2 in
                          (
                            io4,
                            m4,
                            z,
                            ground (arith, c, y, waited, res, o, more),
                            v4,
                            r4,
                            retries rest again o ends,
                          )
                    ]
              ]
        ]
      ]
