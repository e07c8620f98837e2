-- ===== src/Prelude/Count.antt =====
-- How many of the first `n` members of a family pass a test.
use Prim.Native.Nat.{ℕ, zero, suc, ◌+◌, ◌<◌, ◌≤◌}
use mathlib.Core.Path.{◌≡◌, refl}
use mathlib.Core.Bool.{Bool, true, false}
use native.Mathlib.Omega.{arith}
use mathlib.Core.Logic.{inl, inr}
use custom_net_framework.Prelude.Tests.{Bool-cases, ◌==◌}
use custom_net_framework.Prelude.Lists.{update}

abbrev pub bit : Bool → ℕ
bit true = 1
bit false = 0

module _ {ℓ} {A : Type ℓ} (test : A → Bool) where
  pub count_if : ℕ → (ℕ → A) → ℕ
  count_if zero f = 0
  count_if (suc n) f = count_if n f + bit (test (f n))

  pub count_if-le : (n : ℕ) (f : ℕ → A) → count_if n f ≤ n
  unfolding count_if
  count_if-le zero f = omega arith
  count_if-le (suc n) f = ground (arith, count_if-le n f)

  count_if-update_above :
      (n : ℕ) (f : ℕ → A) (k : ℕ) (a : A) → n ≤ k → count_if n (update f k a) ≡ count_if n f
  unfolding count_if
  count_if-update_above zero f k a h = refl
  count_if-update_above (suc n) f k a h = ground (arith, count_if-update_above n f k a)

  pub count_if-update :
      (n : ℕ) (f : ℕ → A) (k : ℕ) (a : A)
      → k < n
      → count_if n (update f k a) + bit (test (f k)) ≡ count_if n f + bit (test a)
  unfolding count_if
  count_if-update zero f k a h = absurd (omega arith)
  count_if-update (suc n) f k a h = elim (Bool-cases (k == n)) [
    | inl e ↦ ground (arith, count_if-update_above n f k a)
    | inr e ↦ ground (arith, count_if-update n f k a)
  ]

  -- If the count is zero, no member passes.
  pub count_if-zero : (n : ℕ) (f : ℕ → A) (k : ℕ) → count_if n f ≡ 0 → k < n → test (f k) ≡ false
  unfolding count_if
  count_if-zero zero f k e h = absurd (omega arith)
  count_if-zero (suc n) f k e h = elim (Bool-cases (k == n)) [
    | inl s ↦ ground arith
    | inr s ↦ ground (arith, count_if-zero n f k)
  ]

  pub count_if-none :
      (n : ℕ) (f : ℕ → A) → ((k : ℕ) → k < n → test (f k) ≡ false) → count_if n f ≡ 0
  unfolding count_if
  count_if-none zero f h = refl
  count_if-none (suc n) f h = ground (arith, h n, count_if-none n f (λ k l. h k (omega arith)))
