-- ===== src/Timer/Invariant.antt =====
-- What holds of a TimerManager between two calls, and that every operation keeps it.
use custom_net_framework.Prelude.{
  ℕ, ◌≡◌, ◌≢◌, refl, inl, inr, Bool, true, false, none, some, List, arith, ◌==◌, ◌&&◌, not, u64,
  ◌+◌, ◌∙◌, subst, if◌then◌else◌, contains, Bool-cases, update, has,
}
use custom_net_framework.Timer.Set.{Timer, Callback, Heap, insert, find, erase_at}
use custom_net_framework.Timer.Set.Order.{IsSorted, IsSorted-update, IsSorted-update_same}
use custom_net_framework.Timer.Set.Lookup.{remove, find_member, IsSorted-remove, contains-remove}
use custom_net_framework.Timer.Set.Insert.{IsSorted-insert, contains-insert}
use custom_net_framework.Timer.{
  TimerManager, init, mark_timer, insert_timer, add_timer, new_timer, cancel, refresh, reset,
  reset_start,
}

-- The set is sorted, holds no null pointer, and a timer is in it exactly while it has a callback.
pub record Inv (m : TimerManager) : Type 0 where
  pub sorted : IsSorted m.heap m.timers
  pub armed : (p : ℕ) → contains p m.timers ≡ has (m.heap p).cb
  pub nonnull : contains 0 m.timers ≡ false

pub init-Inv : (now : ℕ) → Inv (init now)
unfolding init mark_timer
init-Inv now = record { sorted = tt; armed = λ p. refl; nonnull = refl }

-- Writing a timer that has a callback and is not in the set, and inserting it.
pub insert-Inv :
    (m : TimerManager) (p : ℕ) (t : Timer) (s : List ℕ)
    → p ≢ 0
    → has t.cb ≡ true
    → contains p s ≡ false
    → IsSorted m.heap s
    → ((q : ℕ) → (p == q) ≡ false → contains q s ≡ has (m.heap q).cb)
    → contains 0 s ≡ false
    → Inv (insert_timer (record m { heap = update m.heap p t; timers = s }) p).0
unfolding insert_timer
insert-Inv m p t s nz full absent o armed z = record {
  sorted = IsSorted-insert (update m.heap p t) p s (IsSorted-update m.heap p t s absent o);
  armed = λ q. rw (contains-insert (update m.heap p t) p q s) (ground (arith, armed q));
  nonnull = rw (contains-insert (update m.heap p t) p 0 s) (ground arith);
}

pub add_timer-Inv :
    (m : TimerManager) (now p ms : ℕ) (cb : Callback) (recurring : Bool)
    → Inv m
    → p ≢ 0
    → contains p m.timers ≡ false
    → Inv (add_timer m now p ms (some cb) recurring).0
unfolding add_timer new_timer
add_timer-Inv m now p ms cb recurring v nz absent =
    insert-Inv m p (new_timer now ms (some cb) recurring) m.timers nz refl absent v.sorted
      (λ q e. v.armed q) v.nonnull

-- Without `p`, the set still holds just the other timers that have a callback.
module _ (m : TimerManager) (p : ℕ) (v : Inv m) where
  pub contains-others :
      (q : ℕ) → contains q (remove p m.timers) ≡ (if p == q then false else has (m.heap q).cb)
  contains-others q = ground (arith, contains-remove m.heap p q m.timers v.sorted, v.armed q)

  pub remove_absent : contains p (remove p m.timers) ≡ false
  remove_absent = ground (arith, contains-others p)

  pub remove_nonnull : contains 0 (remove p m.timers) ≡ false
  remove_nonnull = ground (arith, contains-remove m.heap p 0 m.timers v.sorted, v.nonnull)

  pub member_ne_zero : has (m.heap p).cb ≡ true → p ≢ 0
  member_ne_zero e z = ground (arith, v.armed p, v.nonnull)

  -- The state after `cancel` has taken the timer out.
  abbrev pub cancelled : TimerManager
  cancelled = record m {
    heap = update m.heap p (record (m.heap p) { cb = none });
    timers = remove p m.timers;
  }

  cancelled-Inv : Inv cancelled
  cancelled-Inv = record {
    sorted =
        IsSorted-update m.heap p (record (m.heap p) { cb = none }) (remove p m.timers) remove_absent
          (IsSorted-remove m.heap p m.timers v.sorted);
    armed = λ q. ground (arith, contains-others q);
    nonnull = remove_nonnull;
  }

  pub cancel_armed : has (m.heap p).cb ≡ true → cancel m p ≡ some (cancelled, true)
  unfolding cancel
  cancel_armed e =
      let h : Heap = update m.heap p (record (m.heap p) { cb = none }) in
      let (it, found, erased) =
        find_member h p m.timers
          (IsSorted-update_same m.heap p (record (m.heap p) { cb = none }) m.timers refl v.sorted)
          (v.armed p ∙ e) in
      rw (e, found, erased)

  pub cancel_idle : has (m.heap p).cb ≡ false → cancel m p ≡ some (m, false)
  unfolding cancel
  cancel_idle e = rw e

  pub cancel-Inv : {m' : TimerManager} {b : Bool} → cancel m p ≡ some (m', b) → Inv m'
  cancel-Inv e = elim (Bool-cases (has (m.heap p).cb)) [
    | inl y ↦ subst Inv (ground (arith, cancel_armed y)) cancelled-Inv
    | inr n ↦ subst Inv (ground (arith, cancel_idle n)) v
  ]

  -- Where an armed timer stands in the set.
  pub locate :
      has (m.heap p).cb ≡ true
      → (it : ℕ) × (find m.heap p m.timers ≡ some it) × (erase_at it m.timers ≡ remove p m.timers)
  locate e = find_member m.heap p m.timers v.sorted (v.armed p ∙ e)

  -- Taking an armed timer out and inserting it with another time.
  pub reinsert-Inv :
      (t : Timer)
      → has (m.heap p).cb ≡ true
      → t.cb ≡ (m.heap p).cb
      → Inv (insert_timer (record m { heap = update m.heap p t; timers = remove p m.timers }) p).0
  reinsert-Inv t e same =
      insert-Inv m p t (remove p m.timers) (member_ne_zero e) (rw same e) remove_absent
        (IsSorted-remove m.heap p m.timers v.sorted) (λ q ne. ground (arith, contains-others q))
        remove_nonnull

  refresh_armed :
      (now : ℕ)
      → has (m.heap p).cb ≡ true
      → let t = record (m.heap p) { next = u64 (now + (m.heap p).ms) } in
        refresh m now p ≡ (
          record m {
            heap = update m.heap p t;
            timers = insert (update m.heap p t) p (remove p m.timers);
          },
          true,
        )
  unfolding refresh
  refresh_armed now e = let (it, found, erased) = locate e in rw (e, found, erased)

  refresh_idle : (now : ℕ) → has (m.heap p).cb ≡ false → refresh m now p ≡ (m, false)
  unfolding refresh
  refresh_idle now e = rw e

  pub reset_armed :
      (now ms : ℕ) (from_now : Bool)
      → has (m.heap p).cb ≡ true
      → (ms == (m.heap p).ms && not from_now) ≡ false
      → let t = record (m.heap p) {
        ms = ms;
        next = u64 (reset_start (m.heap p) now from_now + ms);
      } in
        let r =
          insert_timer (record m { heap = update m.heap p t; timers = remove p m.timers }) p in
        reset m now p ms from_now ≡ (r.0, r.1, true)
  unfolding reset
  reset_armed now ms from_now e c = let (it, found, erased) = locate e in rw (c, e, found, erased)

  -- A timer without a callback is never touched by `refresh` or `reset`.
  pub reset_idle :
      (now ms : ℕ) (from_now : Bool)
      → has (m.heap p).cb ≡ false
      → reset m now p ms from_now ≡ (m, false, (ms == (m.heap p).ms && not from_now))
  unfolding reset
  reset_idle now ms from_now e = elim (Bool-cases (ms == (m.heap p).ms && not from_now)) [
    | inl y ↦ rw y
    | inr n ↦ rw (n, e)
  ]

  reset_same :
      (now ms : ℕ) (from_now : Bool)
      → (ms == (m.heap p).ms && not from_now) ≡ true
      → reset m now p ms from_now ≡ (m, false, true)
  unfolding reset
  reset_same now ms from_now e = rw e

  pub refresh-Inv : (now : ℕ) → Inv (refresh m now p).0
  refresh-Inv now = elim (Bool-cases (has (m.heap p).cb)) [
    | inl y ↦ rw (refresh_armed now y) (insert-sorted-Inv y)
    | inr n ↦ rw (refresh_idle now n) v
  ]
    where
      t : Timer
      t = record (m.heap p) { next = u64 (now + (m.heap p).ms) }

      insert-sorted-Inv :
          has (m.heap p).cb ≡ true
          → Inv (record m {
            heap = update m.heap p t;
            timers = insert (update m.heap p t) p (remove p m.timers);
          })
      insert-sorted-Inv y =
          let w = reinsert-Inv t y refl in
          unfold insert_timer in record { sorted = w.sorted; armed = w.armed; nonnull = w.nonnull }

  pub reset-Inv : (now ms : ℕ) (from_now : Bool) → Inv (reset m now p ms from_now).0
  reset-Inv now ms from_now = elim (Bool-cases (has (m.heap p).cb)) [
    | inl y ↦ elim (Bool-cases (ms == (m.heap p).ms && not from_now)) [
      | inl same ↦ rw (reset_same now ms from_now same) v
      | inr other ↦ rw (reset_armed now ms from_now y other) (
          reinsert-Inv
            (record (m.heap p) { ms = ms; next = u64 (reset_start (m.heap p) now from_now + ms) }) y
            refl)
    ]
    | inr n ↦ rw (reset_idle now ms from_now n) v
  ]
