-- ===== src/Config/Casts/Tests.antt =====
-- Numbers in containers, with trees for texts.
use mathlib.Core.List.{Permᴰ}
use mathlib.Core.List.Permᴰ
use custom_net_framework.Prelude.{
  ℕ, ◌≡◌, refl, arith, Bool, false, Option, none, some, List, [], ◌∷◌, Bytes, ltb,
}
use custom_net_framework.Config.Casts.{
  Hashed, vector_from_text, vector_to_text, list_from_text, list_to_text, set_from_text,
  set_to_text, map_from_text, map_to_text, unordered_set_from_text, unordered_map_from_text,
  unordered_set_to_text, unordered_map_to_text,
}
use custom_net_framework.Config.Casts.Sample.{Tree, word, trees}
use custom_net_framework.Config.Casts.RoundTrip.{IsCast, containers_lem}
use custom_net_framework.Config.Casts.Unordered.{unordered_lem}

abbrev to_word : ℕ → Option Tree
to_word n = some (word (n ∷ []))

abbrev from_word : Tree → Option ℕ
from_word (word (n ∷ [])) = some n
from_word _ = none

number-IsCast : (n : ℕ) → IsCast trees from_word to_word n
unfolding IsCast
number-IsCast n = (word (n ∷ []), word (n ∷ []), refl, refl, refl)

abbrev ages : List (Bytes × ℕ)
ages = (97 ∷ [], 5) ∷ (98 ∷ [], 3) ∷ []

abbrev by_head : Bytes → Bytes → Bool
by_head (a ∷ x) (b ∷ y) = ltb a b
by_head _ _ = false

containers_lem_example :
    IsCast trees (vector_from_text trees from_word) (vector_to_text trees to_word) (7 ∷ 7 ∷ [])
    × IsCast trees (list_from_text trees from_word) (list_to_text trees to_word) (7 ∷ 7 ∷ [])
    × IsCast trees (set_from_text trees from_word ltb) (set_to_text trees to_word) (3 ∷ 5 ∷ [])
    × IsCast trees (map_from_text trees from_word by_head) (map_to_text trees to_word) ages
containers_lem_example =
    containers_lem trees from_word to_word (7 ∷ 7 ∷ []) (3 ∷ 5 ∷ []) ltb ages by_head
      (number-IsCast 7, (number-IsCast 7, tt)) (number-IsCast 3, (number-IsCast 5, tt))
      (((refl, refl), tt), (tt, tt)) (number-IsCast 5, (number-IsCast 3, tt))
      (((refl, refl), tt), (tt, tt))

abbrev stack : {X K : Type 0} (key : X → K) → Hashed key
stack {X} key = record {
  State = List X;
  empty = [];
  insert = λ s x. x ∷ s;
  elements = λ s. s;
  elements_empty = refl;
  insert_new = λ s x a. Permᴰ.refl (x ∷ s);
}

unordered_lem_example :
    ((t : Tree) × (s' : List ℕ) × (unordered_set_to_text trees to_word (stack (λ x. x)) (3 ∷ 5 ∷ [])
        ≡ some t)
      × (unordered_set_from_text trees from_word (stack (λ x. x)) t ≡ some s')
      × Permᴰ s' (3 ∷ 5 ∷ []))
    × ((t : Tree) × (m' : List (Bytes × ℕ)) × (unordered_map_to_text trees to_word
            (stack (λ p. p.0))
            ages
          ≡ some t)
        × (unordered_map_from_text trees from_word (stack (λ p. p.0)) t ≡ some m')
        × Permᴰ m' ages)
unordered_lem_example =
    unordered_lem trees from_word to_word (stack (λ x. x)) (3 ∷ 5 ∷ []) (stack (λ p. p.0)) ages
      (number-IsCast 3, (number-IsCast 5, tt)) (((λ e. omega (arith, e)), tt), (tt, tt))
      (number-IsCast 5, (number-IsCast 3, tt)) (((λ e. ground (arith, e)), tt), (tt, tt))
