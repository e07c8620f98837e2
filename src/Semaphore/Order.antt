-- ===== src/Semaphore/Order.antt =====
-- A semaphore under any sequence of calls by any fibers and threads. Each call but `reset` holds the
-- spinlock, so that it is one step; `reset` is one, too, since it only stores a number.
use mathlib.Core.List.{append-nil, append_assoc}
use custom_net_framework.Prelude.{
  ℕ, suc, ◌+◌, ◌^◌, ◌<◌, ◌≡◌, ◌⊎◌, ◌↔◌, inl, inr, none, some, List, [], ◌∷◌, ◌++◌, ltb,
  if◌then◌else◌, arith, refl, sym, ap, ◌∙◌, true, is_empty, Bool-cases, length, length-append,
}
use custom_net_framework.Semaphore.{
  FiberSemaphore, new_semaphore, try_wait, wait, notify, reset, may_destroy,
}

-- The semaphore with its history: how many calls got a token at once, how many were notifications,
-- how many tokens `reset`
-- dropped, which fibers have had to wait and which were woken, in order.
pub record System : Type 0 where
  pub sem : FiberSemaphore
  pub acquired : ℕ
  pub notified : ℕ
  pub dropped : ℕ
  pub arrived : List (ℕ × ℕ)
  pub woken : List (ℕ × ℕ)

abbrev pub start : ℕ → System
start n = record {
  sem = new_semaphore n;
  acquired = 0;
  notified = 0;
  dropped = 0;
  arrived = [];
  woken = [];
}

abbrev pub after_try : System → System
after_try σ =
    let r = try_wait σ.sem in
    record σ { sem = r.0; acquired = if r.1 then suc σ.acquired else σ.acquired }

abbrev pub after_wait : System → ℕ → ℕ → System
after_wait σ scheduler fiber =
    let r = wait σ.sem scheduler fiber in
    record σ {
      sem = r.0;
      acquired = if r.1 then suc σ.acquired else σ.acquired;
      arrived = if r.1 then σ.arrived else σ.arrived ++ ((scheduler, fiber) ∷ []);
    }

abbrev pub after_notify : System → System
after_notify σ =
    let r = notify σ.sem in
    record σ {
      sem = r.0;
      notified = suc σ.notified;
      woken = elim r.1 [ none ↦ σ.woken | some w ↦ σ.woken ++ (w ∷ []) ];
    }

abbrev pub after_reset : System → System
after_reset σ = record σ { sem = reset σ.sem; dropped = σ.dropped + σ.sem.concurrency }

pub data Reach (n : ℕ) : System → Type 0 where
  here : Reach n (start n)
  tries : {σ : System} → Reach n σ → Reach n (after_try σ)
  waits : {σ : System} (scheduler fiber : ℕ) → Reach n σ → Reach n (after_wait σ scheduler fiber)
  notifies : {σ : System} → Reach n σ → Reach n (after_notify σ)
  resets : {σ : System} → Reach n σ → Reach n (after_reset σ)

pub record Inv (n : ℕ) (σ : System) : Type 0 where
  pub no_lost_token : (σ.sem.concurrency ≡ 0) ⊎ (σ.sem.waiters ≡ [])
  pub in_order : σ.arrived ≡ σ.woken ++ σ.sem.waiters
  pub tokens :
      n + σ.notified < 2 ^ 64
      → n + σ.notified ≡ σ.sem.concurrency + σ.acquired + length σ.woken + σ.dropped

try-Inv : (n : ℕ) (σ : System) → Inv n σ → Inv n (after_try σ)
unfolding try_wait
try-Inv n σ v = elim (Bool-cases (ltb 0 σ.sem.concurrency)) [
  | inl y ↦ record {
    no_lost_token = ground (arith, y, v.no_lost_token);
    in_order = ground (arith, y, v.in_order);
    tokens = λ b. ground (arith, y, v.tokens b);
  }
  | inr z ↦ record {
    no_lost_token = ground (arith, z);
    in_order = ground (arith, z, v.in_order);
    tokens = λ b. ground (arith, z, v.tokens b);
  }
]

wait-Inv : (n : ℕ) (σ : System) (s f : ℕ) → Inv n σ → Inv n (after_wait σ s f)
unfolding wait
wait-Inv n σ s f v = elim (Bool-cases (ltb 0 σ.sem.concurrency)) [
  | inl y ↦ record {
    no_lost_token = ground (arith, y, v.no_lost_token);
    in_order = ground (arith, y, v.in_order);
    tokens = λ b. ground (arith, y, v.tokens b);
  }
  | inr z ↦ record {
    no_lost_token = ground (arith, z);
    in_order = ground (arith, z, v.in_order, append_assoc σ.woken σ.sem.waiters ((s, f) ∷ []));
    tokens = λ b. ground (arith, z, v.tokens b);
  }
]

notify-Inv : (n : ℕ) (σ : System) → Inv n σ → Inv n (after_notify σ)
unfolding notify
notify-Inv n σ v = split σ.sem.waiters refl
  where
    split : (ws : List (ℕ × ℕ)) → σ.sem.waiters ≡ ws → Inv n (after_notify σ)
    split [] e = record {
      no_lost_token = ground (arith, e);
      in_order = ground (arith, e, v.in_order);
      tokens = λ b. ground (arith, e, v.tokens (omega arith), b);
    }
    split (w ∷ ws) e = record {
      no_lost_token = ground (arith, e, v.no_lost_token);
      in_order = ground (arith, e, v.in_order, append_assoc σ.woken (w ∷ []) ws);
      tokens = λ b. ground (arith, e, v.tokens (omega arith), b, length-append σ.woken (w ∷ []));
    }

reset-Inv : (n : ℕ) (σ : System) → Inv n σ → Inv n (after_reset σ)
unfolding reset
reset-Inv n σ v = record {
  no_lost_token = inl refl;
  in_order = v.in_order;
  tokens = λ b. omega (arith, v.tokens b);
}

-- The destructor may run just if all fibers that had to wait have been woken.
may_destroy-arrived :
    (n : ℕ) (σ : System) → Inv n σ → (may_destroy σ.sem ≡ true) ↔ (σ.arrived ≡ σ.woken)
unfolding may_destroy
may_destroy-arrived n σ v = split σ.sem.waiters refl
  where
    split :
        (ws : List (ℕ × ℕ))
        → σ.sem.waiters ≡ ws
        → (is_empty σ.sem.waiters ≡ true) ↔ (σ.arrived ≡ σ.woken)
    split [] e =
        ((λ _. v.in_order ∙ ap (λ ws. σ.woken ++ ws) e ∙ append-nil σ.woken), (λ _. ap is_empty e))
    split (w ∷ ws) e = (
      (λ h. absurd (ground (arith, e, h))),
      (λ a.
          let longer : length σ.woken ≡ length σ.woken + suc (length ws) =
            ap length (sym a ∙ v.in_order ∙ ap (λ xs. σ.woken ++ xs) e)
            ∙ length-append σ.woken (w ∷ ws) in
          absurd (omega (arith, longer))),
    )

pub Reach-Inv : {n : ℕ} {σ : System} → Reach n σ → Inv n σ
unfolding new_semaphore
Reach-Inv here = record { no_lost_token = inr refl; in_order = refl; tokens = λ b. omega arith }
Reach-Inv (tries {σ} r) = try-Inv _ σ (Reach-Inv r)
Reach-Inv (waits {σ} s f r) = wait-Inv _ σ s f (Reach-Inv r)
Reach-Inv (notifies {σ} r) = notify-Inv _ σ (Reach-Inv r)
Reach-Inv (resets {σ} r) = reset-Inv _ σ (Reach-Inv r)

-- In every reachable state of a semaphore that began with `n` tokens, if `n` and the notifications are
-- fewer than 2^64: there is no token while a fiber waits; the fibers that had to wait are those that
-- were woken and then those that still wait, in the order in which they came; and the tokens there
-- have been are the ones left, the ones taken at once, one for each fiber that was woken, and the
-- ones that `reset` dropped. The assertion of the destructor holds just if every fiber that had to
-- wait has been woken.
pub semaphore_lem :
    {n : ℕ} {σ : System}
    → Reach n σ
    → n + σ.notified < 2 ^ 64
    → ((σ.sem.concurrency ≡ 0) ⊎ (σ.sem.waiters ≡ []))
      × (σ.arrived ≡ σ.woken ++ σ.sem.waiters)
      × (n + σ.notified ≡ σ.sem.concurrency + σ.acquired + length σ.woken + σ.dropped)
      × ((may_destroy σ.sem ≡ true) ↔ (σ.arrived ≡ σ.woken))
semaphore_lem {n} {σ} r b =
    let v = Reach-Inv r in (v.no_lost_token, v.in_order, v.tokens b, may_destroy-arrived n σ v)
