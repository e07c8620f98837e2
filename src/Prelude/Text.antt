-- ===== src/Prelude/Text.antt =====
-- Text as lists of byte values.
use Prim.Native.Nat.{ℕ}
use Prim.Native.Char.{code}
use Prim.Native.String.{String}
use mathlib.Core.Path.{◌≡◌, refl}
use mathlib.Core.Logic.{◌↔◌}
use mathlib.Core.Bool.{Bool, true, false, ◌&&◌, ◌||◌}
use mathlib.Core.Option.{Option, none, some}
use mathlib.Core.List.{List, [], ◌∷◌}
use native.Mathlib.Omega.{arith}
use custom_net_framework.Prelude.Tests.{◌==◌, leb, if◌then◌else◌}

abbrev pub Bytes : Type 0
Bytes = List ℕ

-- The bytes of an ASCII text.
abbrev pub codes : String → Bytes
codes String.[] = []
codes (String.◌∷◌ c s) = code c ∷ codes s

-- `==` of std::string.
infix 50 ◌===◌
unfoldable pub ◌===◌ : Bytes → Bytes → Bool
[] === [] = true
[] === (y ∷ ys) = false
(x ∷ xs) === [] = false
(x ∷ xs) === (y ∷ ys) = x == y && xs === ys

pub ===_iff : (xs ys : Bytes) → ((xs === ys) ≡ true) ↔ (xs ≡ ys)
unfolding ◌===◌
===_iff [] [] = ground arith
===_iff [] (y ∷ ys) = ground arith
===_iff (x ∷ xs) [] = ground arith
===_iff (x ∷ xs) (y ∷ ys) = ground (arith, ===_iff xs ys)

pub ===_refl : (xs : Bytes) → (xs === xs) ≡ true
===_refl xs = (===_iff xs xs).1 refl

-- `isalpha` in the C locale.
abbrev pub is_alpha : ℕ → Bool
is_alpha c = (leb b'a' c && leb c b'z') || (leb b'A' c && leb c b'Z')

-- A map from texts, as an association list.
module _ {ℓ} {V : Type ℓ} where
  unfoldable pub lookup : Bytes → List (Bytes × V) → Option V
  lookup k [] = none
  lookup k ((j, v) ∷ m) = if k === j then some v else lookup k m

  unfoldable pub insert : Bytes → V → List (Bytes × V) → List (Bytes × V)
  insert k v [] = (k, v) ∷ []
  insert k v ((j, w) ∷ m) = if k === j then (k, v) ∷ m else (j, w) ∷ insert k v m

  pub lookup-insert :
      (k j : Bytes) (v : V) (m : List (Bytes × V))
      → lookup j (insert k v m) ≡ (if j === k then some v else lookup j m)
  unfolding lookup insert
  lookup-insert k j v [] = refl
  lookup-insert k j v ((i, w) ∷ m) =
      ground (arith, ===_iff k j, ===_iff j k, ===_iff k i, ===_iff j i, lookup-insert k j v m)
