-- ===== src/Timer/Expire.antt =====
-- What `TimerManager::listExpiredCb` returns and leaves behind.
use custom_net_framework.Prelude.{
  ℕ, ◌≡◌, ◌≢◌, refl, ap, inl, inr, Bool, true, false, not, ◌&&◌, ◌||◌, Option, none, some, List, [],
  ◌∷◌, map, arith, ◌==◌, ltb, leb, if◌then◌else◌, contains, Bool-cases, update, has, take, drop,
  length, ◌∙◌, subst, sym,
}
use custom_net_framework.Timer.Set.{Callback, Heap, lower_bound, advance}
use custom_net_framework.Timer.Set.Order.{IsSorted, IsSorted-update}
use custom_net_framework.Timer.Set.Due.{
  due, later, due-update, contains-later, contains-due, IsSorted-due, IsSorted-later, due_first,
  advance-lower_bound, advance_end, take_all,
}
use custom_net_framework.Timer.{
  TimerManager, mark_timer, expired_timer, expire, collect_expired, detect_clock_rollover,
  list_expired_locked,
}
use custom_net_framework.Timer.Invariant.{Inv}
use custom_net_framework.Timer.Loop.{
  IsDistinct, IsSorted-IsDistinct, expire-callbacks, expire-heap, expire-timers, callbacks-update,
  IsDisjoint, IsDisjoint-of, expire-IsSorted, expire-times,
}

-- Is the timer at `p` taken out at time `now`? `over`: the clock has been set back.
abbrev pub is_expired : TimerManager → ℕ → Bool → ℕ → Bool
is_expired m now over p = contains p m.timers && (over || leb (m.heap p).next now)

-- The timers that are taken out, in order.
abbrev pub expired_of : TimerManager → ℕ → Bool → List ℕ
expired_of m now over = if over then m.timers else due m.heap now m.timers

-- What one round of `listExpiredCb` is to do: `q` is the address of its `now_timer`.
pub record Expires (m : TimerManager) (now q : ℕ) (over : Bool) (m' : TimerManager)
    (cbs : List (Option Callback)) : Type 0 where
  pub returned : cbs ≡ map (λ p. (m.heap p).cb) (expired_of m now over)
  pub treated :
      (p : ℕ)
      → (q == p) ≡ false
      → m'.heap p ≡ (if is_expired m now over p then expired_timer now (m.heap p) else m.heap p)
  pub kept :
      (p : ℕ)
      → contains p m'.timers
        ≡ (contains p m.timers && (not (is_expired m now over p) || (m.heap p).recurring))
  pub stamped : m'.previouse_time ≡ now
  pub inv : Inv m'

cut :
    (h : Heap) (now q : ℕ) (over : Bool) (s : List ℕ)
    → IsSorted h s
    → contains 0 s ≡ false
    → q ≢ 0
    → contains q s ≡ false
    → let g = update h q (mark_timer now) in
      let it = advance g now s (if over then length s else lower_bound g q s) in
      (take it s ≡ (if over then s else due h now s))
      × (drop it s ≡ (if over then [] else later h now s))
unfolding mark_timer
cut h now q true s o z nz c = rw (advance_end (update h q (mark_timer now)) now s) (take_all s)
cut h now q false s o z nz c =
    let g : Heap = update h q (mark_timer now) in
    let o' = IsSorted-update h q (mark_timer now) s c o in
    let e = advance-lower_bound g now q s o' z nz c (ground arith) in
    let u = due-update h now q (mark_timer now) s c in (e.0 ∙ u.0, e.1 ∙ u.1)

module _ (m : TimerManager) (now q : ℕ) (over : Bool) (v : Inv m) (nz : q ≢ 0)
    (fresh : contains q m.timers ≡ false) where
  abbrev marked : Heap
  marked = update m.heap q (mark_timer now)

  abbrev rest_of : List ℕ
  rest_of = if over then [] else later m.heap now m.timers

  abbrev stamped_m : TimerManager
  stamped_m = record m { previouse_time = now }

  rest-IsSorted : IsSorted marked rest_of
  rest-IsSorted =
      IsSorted-update m.heap q (mark_timer now) rest_of (rest_fresh over) (rest_in_order over)
    where
      rest_fresh : (b : Bool) → contains q (if b then [] else later m.heap now m.timers) ≡ false
      rest_fresh true = refl
      rest_fresh false = ground (arith, contains-later m.heap now q m.timers)

      rest_in_order : (b : Bool) → IsSorted m.heap (if b then [] else later m.heap now m.timers)
      rest_in_order true = tt
      rest_in_order false = IsSorted-later m.heap now m.timers v.sorted

  contains-expired : (p : ℕ) → contains p (expired_of m now over) ≡ is_expired m now over p
  contains-expired p = ground (arith, contains-due m.heap now p m.timers)

  contains-rest :
      (p : ℕ) → contains p rest_of ≡ (contains p m.timers && not (is_expired m now over p))
  contains-rest p = ground (arith, contains-later m.heap now p m.timers)

  expired-IsDistinct : IsDistinct (expired_of m now over)
  expired-IsDistinct = distinct over
    where
      distinct : (b : Bool) → IsDistinct (if b then m.timers else due m.heap now m.timers)
      distinct true = IsSorted-IsDistinct m.heap m.timers v.sorted
      distinct false =
          IsSorted-IsDistinct m.heap (due m.heap now m.timers)
            (IsSorted-due m.heap now m.timers v.sorted)

  expired-IsDisjoint : IsDisjoint (expired_of m now over) rest_of
  expired-IsDisjoint =
      IsDisjoint-of (expired_of m now over) rest_of
        λ p e. ground (arith, contains-rest p, contains-expired p)

  abbrev cut_m : TimerManager
  cut_m = record stamped_m { heap = marked; timers = rest_of }

  -- The cut gives the expired timers and the rest.
  collect_lem : collect_expired stamped_m now q over ≡ expire now (expired_of m now over) cut_m
  unfolding collect_expired
  collect_lem = let e = cut m.heap now q over m.timers v.sorted v.nonnull nz fresh in rw (e.0, e.1)

  abbrev turned : TimerManager × List (Option Callback)
  turned = expire now (expired_of m now over) cut_m

  mark_unlisted : contains q (expired_of m now over) ≡ false
  mark_unlisted = ground (arith, contains-expired q)

  turned-armed : (p : ℕ) → contains p turned.0.timers ≡ has (turned.0.heap p).cb
  unfolding mark_timer expired_timer
  turned-armed p = ground (
    arith,
    expire-timers now (expired_of m now over) cut_m p expired-IsDistinct,
    expire-heap now (expired_of m now over) cut_m p expired-IsDistinct,
    contains-expired p,
    contains-rest p,
    v.armed p,
  )

  turned-Inv : Inv turned.0
  turned-Inv = record {
    sorted =
        expire-IsSorted now (expired_of m now over) cut_m expired-IsDistinct expired-IsDisjoint
          rest-IsSorted;
    armed = turned-armed;
    nonnull = ground (
      arith,
      expire-timers now (expired_of m now over) cut_m 0 expired-IsDistinct,
      contains-expired 0,
      contains-rest 0,
      v.nonnull,
    );
  }

  pub turned-Expires : Expires m now q over turned.0 turned.1
  unfolding mark_timer
  turned-Expires = record {
    returned =
        expire-callbacks now (expired_of m now over) cut_m expired-IsDistinct
        ∙ callbacks-update m.heap q (mark_timer now) (expired_of m now over) mark_unlisted;
    treated = λ p e. ground (
      arith,
      expire-heap now (expired_of m now over) cut_m p expired-IsDistinct,
      contains-expired p,
    );
    kept = λ p. ground (
      arith,
      expire-timers now (expired_of m now over) cut_m p expired-IsDistinct,
      contains-expired p,
      contains-rest p,
    );
    stamped = (expire-times now (expired_of m now over) cut_m).0;
    inv = turned-Inv;
  }

abbrev pub set_back : TimerManager → ℕ → Bool
set_back m now = (detect_clock_rollover m now).1

-- `list_expired_locked` with the set's elements as an argument.
abbrev locked_on : TimerManager → ℕ → ℕ → List ℕ → Option (TimerManager × List (Option Callback))
locked_on m now q s =
    let r = detect_clock_rollover m now in
    let collected = collect_expired r.0 now q r.1 in
    elim s [
      | [] ↦ if r.1 then some collected else none
      | p ∷ _ ↦ if not r.1 && ltb now (m.heap p).next then some (r.0, []) else some collected
    ]

pub locked_lem :
    (m : TimerManager) (now q : ℕ) (s : List ℕ)
    → m.timers ≡ s
    → list_expired_locked m now q ≡ locked_on m now q s
unfolding list_expired_locked
locked_lem m now q s e = ap (locked_on m now q) e

module _ (m : TimerManager) (now q : ℕ) (v : Inv m) (nz : q ≢ 0)
    (fresh : contains q m.timers ≡ false) where
  -- The early return: no timer is due, and only the time of the call is noted.
  none_due :
      (p : ℕ) (s : List ℕ)
      → m.timers ≡ p ∷ s
      → (not (set_back m now) && ltb now (m.heap p).next) ≡ true
      → Expires m now q (set_back m now) (record m { previouse_time = now }) []
  none_due p s e c = record {
    returned = ground (arith, no_due);
    treated = λ r ne. ground (arith, no_due, contains-due m.heap now r m.timers);
    kept = λ r. ground (arith, no_due, contains-due m.heap now r m.timers);
    stamped = refl;
    inv = record { sorted = v.sorted; armed = v.armed; nonnull = v.nonnull };
  }
    where
      no_due : due m.heap now m.timers ≡ []
      no_due = rw e (
          due_first m.heap now p s (subst (IsSorted m.heap) e v.sorted)
            (ap (contains 0) (sym e) ∙ v.nonnull) (ground arith))

  -- On a state that keeps the invariant, with a fresh address for `now_timer`, and when the set
  -- holds a timer or the clock was set back: one round does not fault, takes out exactly the
  -- timers that are due (all of them if the clock was set back), and returns their callbacks in
  -- order.
  pub list_expired_lem :
      (m.timers ≡ [] → set_back m now ≡ true)
      → (m' : TimerManager) × (cbs : List (Option Callback)) × (list_expired_locked m now q
          ≡ some (m', cbs))
        × Expires m now q (set_back m now) m' cbs
  unfolding detect_clock_rollover
  list_expired_lem h = split m.timers refl
    where
      over : Bool
      over = set_back m now

      collected :
          collect_expired (record m { previouse_time = now }) now q over
          ≡ turned m now q over v nz fresh
      collected = collect_lem m now q over v nz fresh

      split :
          (s : List ℕ)
          → m.timers ≡ s
          → (m' : TimerManager) × (cbs : List (Option Callback)) × (list_expired_locked m now q
              ≡ some (m', cbs))
            × Expires m now q over m' cbs
      split [] e = (
        (turned m now q over v nz fresh).0,
        (turned m now q over v nz fresh).1,
        ground (arith, locked_lem m now q [] e, collected, h),
        turned-Expires m now q over v nz fresh,
      )
      split (p ∷ s) e = elim (Bool-cases (not over && ltb now (m.heap p).next)) [
        | inl early ↦ (
          record m { previouse_time = now },
          [],
          ground (arith, locked_lem m now q (p ∷ s) e),
          none_due p s e early,
        )
        | inr go ↦ (
          (turned m now q over v nz fresh).0,
          (turned m now q over v nz fresh).1,
          ground (arith, locked_lem m now q (p ∷ s) e, collected),
          turned-Expires m now q over v nz fresh,
        )
      ]
