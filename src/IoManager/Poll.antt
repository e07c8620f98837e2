-- ===== src/IoManager/Poll.antt =====
-- `IOManager::stopping` and the timeout with which the idle loop calls epoll_wait.
mod Tests
use custom_net_framework.Prelude.{
  ℕ, zero, suc, ◌+◌, ◌-◌, ◌*◌, ◌^◌, ◌≤◌, ◌<◌, ◌≡◌, ◌≢◌, ◌↔◌, refl, ap, sym, ◌∙◌, subst, ◌⊎◌, inl,
  inr, Bool, true, false, not, ◌&&◌, ◌||◌, Option, none, some, List, [], ◌∷◌, arith, ◌==◌, ltb, leb,
  if◌then◌else◌, u32, u64, sub64, max_u64, get_elem?, Option-cases, contains,
}
use custom_net_framework.Timer.{TimerManager, get_next_timer}
use custom_net_framework.Timer.Invariant.{Inv}
use custom_net_framework.Timer.Wake.{InRange, IsNextDelay, get_next_timer_lem}
use custom_net_framework.Scheduler.{Shared, is_stopping}
use custom_net_framework.Scheduler.System.{System, Reach}
use custom_net_framework.Scheduler.Safety.{is_active, stopping_exact}
use custom_net_framework.IoManager.Events.{read_event, write_event, has_event, events_empty}
use custom_net_framework.IoManager.Context.{FdContext}
use custom_net_framework.IoManager.Slots.{IsContext, weight}
use custom_net_framework.IoManager.Books.{waiting, waiting_at, events_at, Books}

-- `stopping(timeout)`: the timers, the timeout and the result.
unfoldable pub stopping : TimerManager → ℕ → ℕ → Shared → (TimerManager × ℕ) × Bool
stopping m now pending s =
    let r = get_next_timer m now in (r, r.1 == max_u64 && pending == 0 && is_stopping s)

abbrev pub max_timeout : ℕ
max_timeout = 3000

-- `(int)x > MAX_TIMEOUT`: the low 32 bits of `x` as a signed number.
abbrev pub is_above : ℕ → Bool
is_above x = ltb max_timeout (u32 x) && ltb (u32 x) (2 ^ 31)

-- The last argument of epoll_wait, as the 32 bits of an int.
unfoldable pub poll_timeout : ℕ → ℕ
poll_timeout next =
    u32
      (if not (next == max_u64) then (if is_above next then max_timeout else next) else max_timeout)

-- For a time to the next timer that fits uint64_t: the wait is at most MAX_TIMEOUT and that time,
-- if the time is below 2^31 milliseconds. Without a timer it is MAX_TIMEOUT. The wait is negative,
-- so without a bound, just if there is a next timer and bit 31 of the time to it is set.
pub poll_timeout_lem :
    (next : ℕ)
    → next < 2 ^ 64
    → ((next ≡ max_u64 → poll_timeout next ≡ max_timeout)
        × (next < 2 ^ 31 → (poll_timeout next ≤ max_timeout) × (poll_timeout next ≤ next)))
      × ((2 ^ 31 ≤ poll_timeout next) ↔ ((next ≢ max_u64) × (2 ^ 31 ≤ u32 next)))
unfolding poll_timeout
poll_timeout_lem next l = ground arith

no_events : (c : FdContext) → IsContext c → weight c ≡ 0 → c.events ≡ 0
no_events c v z = ground (arith, events_empty c.events v.valid)

-- If `stopping()` holds then no timer is left, no descriptor waits for an event, no task is queued
-- and no worker thread has taken a task that it has not yet counted down: for timers, contexts and a scheduler that keep their
-- invariants, a clock and timers that fit uint64_t, a clock that is not 0, and fewer than 2^64
-- awaited events and worker threads.
pub stopping_lem :
    {n : ℕ} {σ : System} (m : TimerManager) (now pending : ℕ) (cs : List FdContext)
    → Inv m
    → InRange m
    → 0 < now
    → now < 2 ^ 64
    → Books cs pending
    → waiting cs < 2 ^ 64
    → n < 2 ^ 64
    → Reach n σ
    → (stopping m now pending σ.shared).1 ≡ true
    → (m.timers ≡ [])
      × ((fd : ℕ) → events_at cs fd ≡ 0)
      × (σ.shared.fibers ≡ [])
      × ((i : ℕ) → i < n → is_active (σ.pc i) ≡ false)
unfolding stopping
stopping_lem m now pending cs v range clock bound books few small r e =
    let (_, _, empty, idle) = (stopping_exact small r).0 (ground (arith, e)) in
    (
      elim (get_next_timer_lem m now v range bound) [
        | inl a ↦ a.0
        | inr (p, _, d, _) ↦ absurd (ground (arith, e, d, range p))
      ],
      at,
      empty,
      idle,
    )
  where
    at : (fd : ℕ) → events_at cs fd ≡ 0
    at fd = elim (Option-cases (get_elem? cs fd)) [
      | inl o ↦ ground (arith, o)
      | inr (c, f) ↦ ground (
        arith,
        f,
        no_events c (books.contexts fd c f).0
            (waiting_at cs fd c (ground (arith, e, books.pending_exact)) f),
      )
    ]
