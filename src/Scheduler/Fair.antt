-- ===== src/Scheduler/Fair.antt =====
-- A lone worker thread of `Scheduler::run`, turn after turn.
use custom_net_framework.Prelude.{
  ℕ, ◌+◌, ◌≡◌, inl, inr, true, false, not, Option, none, some, List, [], ◌∷◌, ◌++◌, ◌==◌, ==_refl,
  has, update, length, map, is_empty, u64, All, refl, ap, ◌∙◌, arith, Bool-cases, Option-cases,
}
use custom_net_framework.Fiber.{State, exec, is_exec, is_over}
use custom_net_framework.Scheduler.{
  Task, is_task, Shared, Phase, top, in_fiber, in_callback, Outcome, held, readied, returned,
  thrown, fiber_task, scheduler_no_lock, is_bound_elsewhere, pick, dispatch, run_callback,
  begin_turn, less_active, after_fiber, after_callback, end_turn,
}

-- What happens in a turn: the fiber for callbacks, the tasks that come in while the task runs, and
-- how it comes back.
pub record Event : Type 0 where
  pub cb_fiber : ℕ
  pub scheduled : List Task
  pub outcome : Outcome

abbrev pub arrive : Shared → List Task → Shared
arrive s ts = record s { fibers = s.fibers ++ ts }

-- A turn of the loop: the task that was taken, and what follows.
pub turn : ℕ → Event → Shared → Option (Option Task × Shared)
turn self e s = elim (pick self s.state s.fibers) [
  | none ↦ none
  | some p ↦ elim (begin_turn self e.cb_fiber false s) [
    | none ↦ none
    | some (u, phase) ↦ some (p.task, (end_turn (arrive u e.scheduled) phase e.outcome).0)
  ]
]

-- The turns of some events: the tasks that were taken, in order.
pub turns : ℕ → List Event → Shared → Option (List (Option Task) × Shared)
unfolding turn
turns self [] s = some ([], s)
turns self (e ∷ es) s = elim (turn self e s) [
  | none ↦ none
  | some (t, s') ↦ elim (turns self es s') [ none ↦ none | some (ts, s'') ↦ some (t ∷ ts, s'') ]
]

-- No fiber runs.
abbrev pub Rested : (ℕ → State) → Type 0
Rested state = (f : ℕ) → is_exec (state f) ≡ false

-- A task that a thread may take when no fiber runs.
abbrev pub IsFor : ℕ → Task → Type 0
IsFor self t = (is_bound_elsewhere self t ≡ false) × (is_task t ≡ true)

-- What a turn leaves: more tasks at the end of the queue.
record Leaves (q : List Task) (s : Shared) : Type 0 where
  more : List Task
  queue : s.fibers ≡ q ++ more
  rested : Rested s.state

append_assoc : (xs ys zs : List Task) → xs ++ ys ++ zs ≡ xs ++ (ys ++ zs)
append_assoc [] ys zs = refl
append_assoc (x ∷ xs) ys zs = ap (λ l. x ∷ l) (append_assoc xs ys zs)

after_fiber-Leaves :
    (s : Shared) (f : ℕ) (q ts : List Task) (o : Outcome)
    → ((j : ℕ) → (f == j) ≡ false → is_exec (s.state j) ≡ false)
    → s.fibers ≡ q ++ ts
    → Leaves q (after_fiber s f o)
unfolding after_fiber scheduler_no_lock
after_fiber-Leaves s f q ts held r h = record {
  more = ts;
  queue = ground (arith, h, ==_refl f, append_assoc q ts (fiber_task f ∷ []));
  rested = λ j. ground (arith, ==_refl f, r j);
}
after_fiber-Leaves s f q ts readied r h = record {
  more = ts ++ fiber_task f ∷ [];
  queue = ground (arith, h, ==_refl f, append_assoc q ts (fiber_task f ∷ []));
  rested = λ j. ground (arith, ==_refl f, r j);
}
after_fiber-Leaves s f q ts returned r h = record {
  more = ts;
  queue = ground (arith, h, ==_refl f, append_assoc q ts (fiber_task f ∷ []));
  rested = λ j. ground (arith, ==_refl f, r j);
}
after_fiber-Leaves s f q ts thrown r h = record {
  more = ts;
  queue = ground (arith, h, ==_refl f, append_assoc q ts (fiber_task f ∷ []));
  rested = λ j. ground (arith, ==_refl f, r j);
}

after_callback-Leaves :
    (s : Shared) (f : ℕ) (q ts : List Task) (o : Outcome)
    → ((j : ℕ) → (f == j) ≡ false → is_exec (s.state j) ≡ false)
    → s.fibers ≡ q ++ ts
    → Leaves q (after_callback s f o)
unfolding after_callback scheduler_no_lock
after_callback-Leaves s f q ts held r h = record {
  more = ts;
  queue = ground (arith, h, ==_refl f, append_assoc q ts (fiber_task f ∷ []));
  rested = λ j. ground (arith, ==_refl f, r j);
}
after_callback-Leaves s f q ts readied r h = record {
  more = ts ++ fiber_task f ∷ [];
  queue = ground (arith, h, ==_refl f, append_assoc q ts (fiber_task f ∷ []));
  rested = λ j. ground (arith, ==_refl f, r j);
}
after_callback-Leaves s f q ts returned r h = record {
  more = ts;
  queue = ground (arith, h, ==_refl f, append_assoc q ts (fiber_task f ∷ []));
  rested = λ j. ground (arith, ==_refl f, r j);
}
after_callback-Leaves s f q ts thrown r h = record {
  more = ts;
  queue = ground (arith, h, ==_refl f, append_assoc q ts (fiber_task f ∷ []));
  rested = λ j. ground (arith, ==_refl f, r j);
}

-- The turn of a worker that finds a task of its own at the head of the queue.
entered-Leaves :
    (s : Shared) (f : ℕ) (q ts : List Task) (e : Event)
    → Rested s.state
    → s.fibers ≡ q ++ ts
    → Leaves q
        (after_fiber (arrive (record s { state = update s.state f exec }) e.scheduled) f e.outcome)
      × Leaves q (
          after_callback
            (arrive (record s { state = update s.state f exec }) e.scheduled)
            f
            e.outcome)
entered-Leaves s f q ts e r h =
    let u = arrive (record s { state = update s.state f exec }) e.scheduled in
    let other : (j : ℕ) → (f == j) ≡ false → is_exec (u.state j) ≡ false = λ j n. rw n (r j) in
    let queue : u.fibers ≡ q ++ (ts ++ e.scheduled) =
      ap (λ l. l ++ e.scheduled) h ∙ append_assoc q ts e.scheduled in
    (
      after_fiber-Leaves u f q (ts ++ e.scheduled) e.outcome other queue,
      after_callback-Leaves u f q (ts ++ e.scheduled) e.outcome other queue,
    )

pick_head :
    (self : ℕ) (state : ℕ → State) (t : Task) (ts : List Task)
    → Rested state
    → IsFor self t
    → pick self state (t ∷ ts)
      ≡ some (record { task = some t; rest = ts; tickle_me = not (is_empty ts) })
unfolding pick
pick_head self state t ts r b = elim (Option-cases t.fiber) [
  | inl n ↦ ground (arith, n, b.0, b.1)
  | inr (f, y) ↦ ground (arith, y, b.0, b.1, r f)
]

-- A turn's first half yields a state and a phase, and its second half leaves the queue.
Goes : List Task → Event → Option (Shared × Phase) → Type 0
Goes q e r =
    (u : Shared) × (phase : Phase) × (r ≡ some (u, phase))
    × Leaves q (end_turn (arrive u e.scheduled) phase e.outcome).0

run_callback-Goes :
    (s : Shared) (t : Task) (q ts : List Task) (e : Event)
    → Rested s.state
    → s.fibers ≡ q ++ ts
    → Goes q e (run_callback s e.cb_fiber t)
unfolding Goes end_turn
run_callback-Goes s t q ts e r h = elim (Bool-cases (has t.cb)) [
  | inl y ↦ (
    record s { state = update s.state e.cb_fiber exec },
    in_callback e.cb_fiber,
    ground (arith, y, r e.cb_fiber),
    (entered-Leaves s e.cb_fiber q ts e r h).1,
  )
  | inr n ↦ (
    less_active s,
    top,
    ground (arith, n),
    record {
      more = ts ++ e.scheduled;
      queue = ap (λ l. l ++ e.scheduled) h ∙ append_assoc q ts e.scheduled;
      rested = r;
    },
  )
]

dispatch-Goes :
    (s : Shared) (t : Task) (q ts : List Task) (e : Event)
    → Rested s.state
    → s.fibers ≡ q ++ ts
    → Goes q e (dispatch s e.cb_fiber t)
unfolding dispatch Goes end_turn
dispatch-Goes s t q ts e r h = elim (Option-cases t.fiber) [
  | inl n ↦
      let (u, phase, b, l) = run_callback-Goes s t q ts e r h in (u, phase, ground (arith, n, b), l)
  | inr (f, y) ↦ elim (Bool-cases (is_over (s.state f))) [
    | inl over ↦
        let (u, phase, b, l) = run_callback-Goes s t q ts e r h in
        (u, phase, ground (arith, y, over, b), l)
    | inr alive ↦ (
      record s { state = update s.state f exec },
      in_fiber f,
      ground (arith, y, alive, r f),
      (entered-Leaves s f q ts e r h).0,
    )
  ]
]

turn-Leaves :
    (self : ℕ) (s : Shared) (t : Task) (q ts : List Task) (e : Event)
    → Rested s.state
    → IsFor self t
    → s.fibers ≡ (t ∷ q) ++ ts
    → (s' : Shared) × (turn self e s ≡ some (some t, s')) × Leaves q s'
unfolding turn begin_turn Goes
turn-Leaves self s t q ts e r b h =
    let chosen : pick self s.state s.fibers
        ≡ some (record { task = some t; rest = q ++ ts; tickle_me = not (is_empty (q ++ ts)) }) =
      ap (pick self s.state) h ∙ pick_head self s.state t (q ++ ts) r b in
    let (u, phase, d, l) =
      dispatch-Goes
        (record s { fibers = q ++ ts; active_thread_count = u64 (s.active_thread_count + 1) }) t q
        ts e r refl in
    ((end_turn (arrive u e.scheduled) phase e.outcome).0, ground (arith, chosen, d), l)

-- When no fiber runs, and a queue begins with some tasks that a worker thread may take, which are
-- fibers or callbacks that are not bound to another thread: in as many turns the worker takes just
-- these tasks, one in each turn and in their order, whatever other tasks come in meanwhile and
-- however each task comes back; no assertion fails, and no fiber runs in the end. No other thread of
-- the scheduler takes part.
pub turns_lem :
    (self : ℕ) (q more : List Task) (es : List Event) (s : Shared)
    → Rested s.state
    → All (IsFor self) q
    → s.fibers ≡ q ++ more
    → length es ≡ length q
    → (s' : Shared) × (turns self es s ≡ some (map (λ t. some t) q, s')) × Rested s'.state
unfolding turns
turns_lem self [] more [] s r a h n = (s, refl, r)
turns_lem self [] more (e ∷ es) s r a h n = absurd (ground (arith, n))
turns_lem self (t ∷ q) more [] s r a h n = absurd (ground (arith, n))
turns_lem self (t ∷ q) more (e ∷ es) s r a h n =
    let (s', one, l) = turn-Leaves self s t q more e r a.0 h in
    let (s'', rest, r') = turns_lem self q l.more es s' l.rested a.1 l.queue (ground (arith, n)) in
    (s'', ground (arith, one, rest), r')
