-- ===== src/IoManager/Round/Safe.antt =====
-- A round of the idle loop, when its reports are for events that are waited for.
use mathlib.Core.List.{append-nil, append_assoc}
use custom_net_framework.Prelude.{
  ℕ, ◌≡◌, ◌≢◌, ◌↔◌, ◌++◌, ◌∷◌, ◌∙◌, ap, sym, refl, inl, inr, arith, true, false, Option, none, some,
  List, [], All, contains, is_empty, Option-cases, Bool-cases, is_empty,
}
use custom_net_framework.Timer.{TimerManager, list_expired_cb, list_expired_locked, get_next_timer}
use custom_net_framework.Timer.Set.{Callback}
use custom_net_framework.Timer.Steps.{Reach, next, expires, asks, list_expired_race}
use custom_net_framework.Scheduler.{Shared, Task}
use custom_net_framework.IoManager.Books.{events_at}
use custom_net_framework.IoManager.Mirror.{Inv}
use custom_net_framework.IoManager.{Epoll, IoManager}
use custom_net_framework.IoManager.Poll.{stopping, poll_timeout}
use custom_net_framework.IoManager.Round.{
  Report, clamp, poll, Round, exits, polls, yields, idle_round, schedule_callbacks,
}
use custom_net_framework.IoManager.Round.Fresh.{
  poll-args, fresh_under, IsOther, AreFresh, Handled, handle_all_lem,
}

-- The tasks for callbacks that are not empty, in order.
pub queued : (Callback → ℕ × Task) → List (Option Callback) → List (ℕ × Task)
queued own [] = []
queued own (none ∷ cbs) = queued own cbs
queued own (some cb ∷ cbs) = own cb ∷ queued own cbs

module _ (E : Epoll) where
  -- `schedule` changes nothing but the tasks.
  schedule_callbacks_lem :
      (own : Callback → ℕ × Task) (pipe : ℕ) (io : IoManager (E.State))
      (cbs : List (Option Callback))
      → Inv E pipe io
      → let io' = schedule_callbacks E own io cbs in
        Inv E pipe io'
        × (io'.scheduled ≡ io.scheduled ++ queued own cbs)
        × (io'.kernel ≡ io.kernel)
        × (io'.fd_contexts ≡ io.fd_contexts)
  unfolding schedule_callbacks queued
  schedule_callbacks_lem own pipe io [] v = (v, sym (append-nil (io.scheduled)), refl, refl)
  schedule_callbacks_lem own pipe io (none ∷ cbs) v = schedule_callbacks_lem own pipe io cbs v
  schedule_callbacks_lem own pipe io (some cb ∷ cbs) v =
      let io1 : IoManager (E.State) = record io { scheduled = io.scheduled ++ (own cb ∷ []) } in
      let w : Inv E pipe io1 = record { books = v.books; mirrors = v.mirrors } in
      let (v', s, k, c) = schedule_callbacks_lem own pipe io1 cbs w in
      (v', s ∙ append_assoc (io.scheduled) (own cb ∷ []) (queued own cbs), k, c)

  list_expired_cb-Reach :
      (start : ℕ) (between : TimerManager → TimerManager) (m : TimerManager) (now q : ℕ)
      → Reach start m
      → Reach start (between m)
      → ((between m).timers ≡ [] → is_empty m.timers ≡ true)
      → q ≢ 0
      → contains q (between m).timers ≡ false
      → (m' : TimerManager) × (cbs : List (Option Callback)) × (list_expired_cb between m now q
          ≡ some (m', cbs))
        × Reach start m'
  unfolding list_expired_cb
  list_expired_cb-Reach start between m now q r r' kept nz fresh =
      elim (Bool-cases (is_empty m.timers)) [
        | inl y ↦ (m, [], ground (arith, y), r)
        | inr n ↦ elim (Option-cases (list_expired_locked (between m) now q)) [
          | inl f ↦ absurd (
              ground (arith, n, kept, (list_expired_race between m now q).0 (ground (arith, n, f))))
          | inr ((m', cbs), f) ↦ (m', cbs, ground (arith, n, f), next r' (expires now q nz fresh f))
        ]
      ]

  -- What a round comes to.
  pub IsRound :
      (own : Callback → ℕ × Task) (start pipe : ℕ)
      (meanwhile : IoManager (E.State) × TimerManager → IoManager (E.State) × TimerManager)
      (between : TimerManager → TimerManager)
      → Shared
      → (asked now q : ℕ) → List (Option (List Report))
      → IoManager (E.State)
      → TimerManager
      → Round E
      → Type 0
  IsRound own start pipe meanwhile between s asked now q results io m (exits m') =
      (stopping m asked io.pending_event_count s).1 ≡ true
  IsRound own start pipe meanwhile between s asked now q results io m polls =
      poll (get_next_timer m asked).1 results ≡ none
  IsRound own start pipe meanwhile between s asked now q results io m (yields io' m' cbs args) =
      let w = meanwhile (io, (get_next_timer m asked).0) in
      (reports : List Report) × (poll (get_next_timer m asked).1 results ≡ some (args, reports))
      × All (λ a. a ≡ poll_timeout (get_next_timer m asked).1) args
      × (list_expired_cb between w.1 now q ≡ some (m', cbs))
      × Reach start m'
      × Inv E pipe io'
      × Handled E pipe (schedule_callbacks E own w.0 cbs) reports io'
      × ((schedule_callbacks E own w.0 cbs).scheduled ≡ w.0.scheduled ++ queued own cbs)
      × ((j : ℕ)
          → All (IsOther E j) reports
          → events_at io'.fd_contexts j ≡ events_at w.0.fd_contexts j)

  -- A round of the idle loop, when other threads keep the invariants meanwhile, do not empty the
  -- set of timers between the locks of listExpiredCb, and leave the reported events awaited, and
  -- with a fresh address for its timer: no assertion fails and nothing is read past the end. The
  -- loop ends just if `stopping()` holds. Otherwise each call of epoll_wait, also after one that was
  -- interrupted, has the timeout for the next timer; the callbacks of the expired timers are
  -- scheduled in order, but for empty ones. Then, report after report: if the report stands for
  -- an event that is waited for and its call of epoll_ctl succeeds, the events that it stands for
  -- are taken from the descriptor and what waited for them is scheduled, and otherwise the report
  -- changes no events and schedules nothing. The other descriptors keep their events, and the
  -- invariants hold again.
  pub idle_round_lem :
      (own : Callback → ℕ × Task) (start pipe : ℕ)
      (meanwhile : IoManager (E.State) × TimerManager → IoManager (E.State) × TimerManager)
      (between : TimerManager → TimerManager) (s : Shared) (asked now q : ℕ)
      (results : List (Option (List Report))) (io : IoManager (E.State)) (m : TimerManager)
      → let w = meanwhile (io, (get_next_timer m asked).0) in
        Inv E pipe io
        → Reach start m
        → (Inv E pipe io
            → Reach start (get_next_timer m asked).0
            → Inv E pipe w.0 × Reach start w.1)
        → (Reach start w.1 → Reach start (between w.1))
        → ((between w.1).timers ≡ [] → is_empty w.1.timers ≡ true)
        → q ≢ 0
        → contains q (between w.1).timers ≡ false
        → ((args : List ℕ) (reports : List Report)
            → poll (get_next_timer m asked).1 results ≡ some (args, reports)
            → AreFresh E w.0 reports)
        → (r : Round E) × (idle_round E own meanwhile between s asked now q results io m ≡ some r)
          × IsRound own start pipe meanwhile between s asked now q results io m r
          × (((stopping m asked io.pending_event_count s).1 ≡ true)
              ↔ (r ≡ exits (get_next_timer m asked).0))
  unfolding idle_round stopping IsRound poll_timeout clamp
  idle_round_lem own start pipe meanwhile between s asked now q results io m v r keeps more kept nz
        fresh are =
      elim (Bool-cases ((stopping m asked io.pending_event_count s).1)) [
        | inl y ↦ (exits (get_next_timer m asked).0, ground (arith, y), y, ground (arith, y))
        | inr n ↦ elim (Option-cases (poll (get_next_timer m asked).1 results)) [
          | inl p ↦ (polls, ground (arith, n, p), p, ground (arith, n))
          | inr ((args, reports), p) ↦
              let w = meanwhile (io, (get_next_timer m asked).0) in
              let (vw, rw') = keeps v (next r (asks asked)) in
              let (m', cbs, run, r') =
                list_expired_cb-Reach start between w.1 now q rw' (more rw') kept nz fresh in
              let (vs, put, _, contexts) = schedule_callbacks_lem own pipe w.0 cbs vw in
              let (io', all, v', h, same) =
                handle_all_lem E pipe (schedule_callbacks E own w.0 cbs) reports vs (
                  fresh_under E w.0 (schedule_callbacks E own w.0 cbs) contexts reports
                    (are args reports p)) in
              (
                yields io' m' cbs args,
                ground (arith, n, p, run, all),
                (
                  reports,
                  p,
                  poll-args (get_next_timer m asked).1 results args reports p,
                  run,
                  r',
                  v',
                  h,
                  put,
                  λ j o. same j o ∙ ap (λ t. events_at t j) contexts,
                ),
                ground (arith, n),
              )
        ]
      ]
