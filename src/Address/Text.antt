-- ===== src/Address/Text.antt =====
-- `IPv6Address::insert` and its text.
use mathlib.Core.List.{append_assoc, append-nil}
use custom_net_framework.Prelude.{
  ℕ, zero, suc, ◌⊎◌, ◌+◌, ◌≡◌, ◌≢◌, Bool, true, false, not, ◌&&◌, ◌||◌, Option, none, some, List,
  [], ◌∷◌, ◌++◌, ◌==◌, if◌then◌else◌, length, map, All, Bytes, codes, refl, sym, ap, ◌∙◌, arith,
  inl, inr, Bool-cases,
}
use custom_net_framework.Endian.{byteswap}
use custom_net_framework.Address.{
  Token, colon, group, print_groups, groups_of, token_text, insert_6, IpV6Address,
}
use custom_net_framework.Address.Compress.{sides, expand, read_tokens}

-- The tokens of a text, with the digits read before it.
module _ (unhex : Bytes → ℕ) where
  pub word : Bytes → List Token
  word [] = []
  word (c ∷ s) = group (unhex (c ∷ s)) ∷ []

  pub lex : Bytes → Bytes → List Token
  unfolding word
  lex digits [] = word digits
  lex digits (c ∷ s) =
      if c == b':' then word digits ++ (colon ∷ lex [] s) else lex (digits ++ c ∷ []) s

  -- An IPv6 address in its text form, as RFC 4291 has it.
  pub read_groups : Bytes → Option (List ℕ)
  unfolding lex
  read_groups text = elim (sides (lex [] text)) [ none ↦ none | some s ↦ expand s ]

-- No two groups stand side by side.
IsSpaced : List Token → Type 0
IsSpaced [] = Unit
IsSpaced (colon ∷ ts) = IsSpaced ts
IsSpaced (group g ∷ []) = Unit
IsSpaced (group g ∷ colon ∷ ts) = IsSpaced ts
IsSpaced (group g ∷ group h ∷ ts) = ⊥

after_group :
    (h p : ℕ) (used : Bool) (gs : List ℕ) → IsSpaced (group h ∷ print_groups true p used gs)
unfolding print_groups IsSpaced
after_group h p used [] = elim (Bool-cases (not used && p == 0)) [
  | inl y ↦ rw y tt
  | inr n ↦ rw n tt
]
after_group h p used (g ∷ gs) = elim (Bool-cases (g == 0 && not used)) [
  | inl y ↦ rw y (after_group h g used gs)
  | inr n ↦ elim (Bool-cases (p == 0 && not used)) [
    | inl c ↦ rw (n, c) (after_group (byteswap 2 g) g (used || true) gs)
    | inr c ↦ rw (n, c) (after_group (byteswap 2 g) g (used || false) gs)
  ]
]

IsSpaced-tail : (h : ℕ) (ts : List Token) → IsSpaced (group h ∷ ts) → IsSpaced ts
unfolding IsSpaced
IsSpaced-tail h [] s = tt
IsSpaced-tail h (colon ∷ ts) s = s
IsSpaced-tail h (group g ∷ ts) s = absurd s

from_start : (gs : List ℕ) → IsSpaced (print_groups false 1 false gs)
unfolding print_groups IsSpaced
from_start [] = tt
from_start (g ∷ gs) = elim (Bool-cases (g == 0)) [
  | inl y ↦ rw y (IsSpaced-tail 0 (print_groups true g false gs) (after_group 0 g false gs))
  | inr n ↦ rw n (after_group (byteswap 2 g) g false gs)
]

pub length-groups_of : (n : ℕ) (bs : Bytes) → length bs ≡ n + n → length (groups_of bs) ≡ n
unfolding groups_of
length-groups_of n [] h = omega (arith, h)
length-groups_of n (x ∷ []) h = absurd (omega (arith, h))
length-groups_of zero (x ∷ y ∷ bs) h = absurd (omega (arith, h))
length-groups_of (suc n) (x ∷ y ∷ bs) h = ap suc (length-groups_of n bs (omega (arith, h)))

-- A stream that prints numbers in hexadecimal, and its inverse.
module _ (hex : ℕ → Bytes) (unhex : Bytes → ℕ) (back : (g : ℕ) → unhex (hex g) ≡ g)
    (printed : (g : ℕ) → hex g ≢ [])
    (plain : (g : ℕ) → All (λ c. (c == b':') ≡ false) (hex g)) where
  word-hex : (g : ℕ) → word unhex (hex g) ≡ group g ∷ []
  unfolding word
  word-hex g = elim (word_of (hex g)) [
    | inl e ↦ absurd (printed g e)
    | inr e ↦ e ∙ ap (λ n. group n ∷ []) (back g)
  ]
    where
      word_of : (s : Bytes) → (s ≡ []) ⊎ (word unhex s ≡ group (unhex s) ∷ [])
      word_of [] = inl refl
      word_of (c ∷ s) = inr refl

  lex-digits :
      (ds digits rest : Bytes)
      → All (λ c. (c == b':') ≡ false) ds
      → lex unhex digits (ds ++ rest) ≡ lex unhex (digits ++ ds) rest
  unfolding lex
  lex-digits [] digits rest h = ap (λ d. lex unhex d rest) (sym (append-nil digits))
  lex-digits (c ∷ ds) digits rest h =
      ground (arith, h.0)
      ∙ lex-digits ds (digits ++ c ∷ []) rest h.1
      ∙ ap (λ d. lex unhex d rest) (append_assoc digits (c ∷ []) ds)

  -- A text of tokens is read as these tokens.
  lex-token_text :
      (number : ℕ → Bytes) (ts : List Token)
      → IsSpaced ts
      → lex unhex [] (token_text number hex ts) ≡ ts
  unfolding lex token_text IsSpaced
  lex-token_text number [] s = refl
  lex-token_text number (colon ∷ ts) s = ap (λ r. colon ∷ r) (lex-token_text number ts s)
  lex-token_text number (group g ∷ []) s = lex-digits (hex g) [] [] (plain g) ∙ word-hex g
  lex-token_text number (group g ∷ group h ∷ ts) s = absurd s
  lex-token_text number (group g ∷ colon ∷ ts) s =
      lex-digits (hex g) [] (b':' ∷ token_text number hex ts) (plain g)
      ∙ ap (λ w. w ++ (colon ∷ lex unhex [] (token_text number hex ts))) (word-hex g)
      ∙ ap (λ r. group g ∷ colon ∷ r) (lex-token_text number ts s)

  -- Whatever an IPv6 address of 16 bytes is, when the stream prints numbers in hexadecimal by digits,
  -- at least one, with no colon, from which the number can be had back: insert prints, between the
  -- brackets before the port, a text in the form of IPv6 addresses, where groups have one colon
  -- between them, and at most one double colon stands for zeros. It is read back as the eight groups
  -- of the address in network byte order.
  pub insert_6-read_groups :
      (number : ℕ → Bytes) (a : IpV6Address)
      → length a.addr ≡ 16
      → (text : Bytes) × (insert_6 number hex a
          ≡ codes "[" ++ (text ++ (codes "]:" ++ number (byteswap 2 a.port))))
        × (read_groups unhex text ≡ some (map (byteswap 2) (groups_of a.addr)))
  unfolding insert_6 read_groups
  insert_6-read_groups number a l =
      let gs = groups_of a.addr in
      let ts = print_groups false 1 false gs in
      (
        token_text number hex ts,
        refl,
        ap (λ t. elim (sides t) [ none ↦ none | some s ↦ expand s ])
              (lex-token_text number ts (from_start gs))
            ∙ read_tokens gs (length-groups_of 8 a.addr l),
      )
