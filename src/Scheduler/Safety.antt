-- ===== src/Scheduler/Safety.antt =====
-- What the counters of the scheduler count, and what stopping() means.
use custom_net_framework.Prelude.{
  ℕ, ◌+◌, ◌^◌, ◌<◌, ◌≤◌, ◌≡◌, refl, ◌↔◌, Bool, true, false, [], arith, sym, ◌∙◌, u64, sub64, update,
  count_if, bit, count_if-update, count_if-le, count_if-none, count_if-zero,
}
use custom_net_framework.Scheduler.{Shared, is_stopping}
use custom_net_framework.Scheduler.System.{
  Place, top, chose, entering, switching, inside, back, dropped, in_idle, Move, takes,
  finds_nothing, starts, renews, drops, uncounts_dropped, asserts, switches, yields_to_hold,
  yields_to_ready, ends, uncounts, sees_ready, sees_other, requeues, lets_go, clears, sees_running,
  holds, exits, idles, wakes, System, Step, moves, schedules, stops, Reach, here, next,
}

-- From taking a task until it is counted down.
abbrev pub is_active : Place → Bool
is_active (chose t) = true
is_active (entering f own) = true
is_active (switching f own) = true
is_active (inside f own) = true
is_active (back f own) = true
is_active dropped = true
is_active _ = false

abbrev pub is_idle : Place → Bool
is_idle in_idle = true
is_idle _ = false

-- A counter, when a thread that was counted or not goes on to a place that is counted or not.
recount : (was now : Bool) → ℕ → ℕ
recount true true k = k
recount true false k = sub64 k 1
recount false true k = u64 (k + 1)
recount false false k = k

recount_lem :
    (was now : Bool) (k k' n : ℕ)
    → k' + bit was ≡ k + bit now
    → k ≤ n
    → k' ≤ n
    → n < 2 ^ 64
    → recount was now k ≡ k'
unfolding recount
recount_lem true true k k' n e l l' b = omega (arith, e)
recount_lem true false k k' n e l l' b = omega (arith, e, l, l', b)
recount_lem false true k k' n e l l' b = omega (arith, e, l, l', b)
recount_lem false false k k' n e l l' b = omega (arith, e)

-- Each step keeps the counters as the places tell.
Move-counters :
    {i : ℕ} {s s' : Shared} {p q : Place}
    → Move i s p s' q
    → (s'.active_thread_count ≡ recount (is_active p) (is_active q) s.active_thread_count)
      × (s'.idle_thread_count ≡ recount (is_idle p) (is_idle q) s.idle_thread_count)
unfolding recount
Move-counters (takes e t) = (refl, refl)
Move-counters (finds_nothing e t) = (refl, refl)
Move-counters (starts e u) = (refl, refl)
Move-counters (renews f u c r) = (refl, refl)
Move-counters (drops u c) = (refl, refl)
Move-counters uncounts_dropped = (refl, refl)
Move-counters (asserts e) = (refl, refl)
Move-counters switches = (refl, refl)
Move-counters (yields_to_hold e) = (refl, refl)
Move-counters (yields_to_ready e) = (refl, refl)
Move-counters (ends x o) = (refl, refl)
Move-counters uncounts = (refl, refl)
Move-counters (sees_ready e) = (refl, refl)
Move-counters (sees_other e) = (refl, refl)
Move-counters requeues = (refl, refl)
Move-counters (lets_go e) = (refl, refl)
Move-counters (clears e) = (refl, refl)
Move-counters (sees_running e) = (refl, refl)
Move-counters holds = (refl, refl)
Move-counters exits = (refl, refl)
Move-counters idles = (refl, refl)
Move-counters wakes = (refl, refl)

record Inv (n : ℕ) (σ : System) : Type 0 where
  active : σ.shared.active_thread_count ≡ count_if is_active n σ.pc
  idle : σ.shared.idle_thread_count ≡ count_if is_idle n σ.pc

-- The count after a step of the thread `i`.
recount_if :
    (test : Place → Bool) (n : ℕ) (pc : ℕ → Place) (i : ℕ) (p q : Place)
    → n < 2 ^ 64
    → i < n
    → pc i ≡ p
    → recount (test p) (test q) (count_if test n pc) ≡ count_if test n (update pc i q)
recount_if test n pc i p q small lt at =
    recount_lem (test p) (test q) (count_if test n pc) (count_if test n (update pc i q)) n
      (ground (arith, at, count_if-update test n pc i q lt)) (count_if-le test n pc)
      (count_if-le test n (update pc i q)) small

Step-Inv : {n : ℕ} {σ τ : System} → n < 2 ^ 64 → Step n σ τ → Inv n σ → Inv n τ
Step-Inv {n} {σ} small (moves i {p} {q} lt at m) v = record {
  active =
      ground (arith, (Move-counters m).0, v.active, recount_if is_active n σ.pc i p q small lt at);
  idle = ground (arith, (Move-counters m).1, v.idle, recount_if is_idle n σ.pc i p q small lt at);
}
Step-Inv small (schedules t) v = record { active = v.active; idle = v.idle }
Step-Inv small stops v = record { active = v.active; idle = v.idle }

Reach-Inv : {n : ℕ} {σ : System} → n < 2 ^ 64 → Reach n σ → Inv n σ
Reach-Inv {n} small here = record {
  active = sym (count_if-none is_active n (λ _. top) (λ k l. refl));
  idle = sym (count_if-none is_idle n (λ _. top) (λ k l. refl));
}
Reach-Inv small (next r st) = Step-Inv small st (Reach-Inv small r)

-- With fewer than 2^64 worker threads, after any interleaving of their statements, with tasks
-- scheduled at any time: `m_activeThreadCount` is the number of threads that have taken a task from
-- the queue and not yet counted it down, which they do when its fiber has come back and before they
-- look at it; `m_idleThreadCount` is the number of threads between the two statements around the
-- idle fiber.
pub counters_exact :
    {n : ℕ} {σ : System}
    → n < 2 ^ 64
    → Reach n σ
    → (σ.shared.active_thread_count ≡ count_if is_active n σ.pc)
      × (σ.shared.idle_thread_count ≡ count_if is_idle n σ.pc)
counters_exact small r = ((Reach-Inv small r).active, (Reach-Inv small r).idle)

-- With fewer than 2^64 worker threads, after any interleaving of their statements: `stopping()`
-- holds just if the scheduler may stop by itself (`m_autoStop`), stop() has been called, no task is
-- queued, and no worker thread has taken a task that it has not yet counted down.
pub stopping_exact :
    {n : ℕ} {σ : System}
    → n < 2 ^ 64
    → Reach n σ
    → (is_stopping (σ.shared) ≡ true) ↔ (
        (σ.shared.auto_stop ≡ true)
        × (σ.shared.stopping ≡ true)
        × (σ.shared.fibers ≡ [])
        × ((i : ℕ) → i < n → is_active (σ.pc i) ≡ false))
unfolding is_stopping
stopping_exact {n} {σ} small r = (
  λ e. (
    ground arith,
    ground arith,
    ground arith,
    λ i l. count_if-zero is_active n σ.pc i (sym (Reach-Inv small r).active ∙ ground arith) l,
  ),
  λ w.
      let none_active : σ.shared.active_thread_count ≡ 0 =
        (Reach-Inv small r).active ∙ count_if-none is_active n σ.pc w.3 in
      ground (arith, w.0, w.1, w.2, none_active),
)
