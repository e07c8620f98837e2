-- ===== src/Address/Order.antt =====
-- `operator<` and `operator==` against the lexicographic order of the bytes in use.
use custom_net_framework.Prelude.{
  ℕ, zero, suc, ◌≤◌, ◌≡◌, inl, inr, Bool, true, false, not, ◌&&◌, ◌||◌, [], ◌∷◌, ◌==◌, ==_iff, ◌↔◌,
  leb, ltb, if◌then◌else◌, length, take, Bytes, ◌===◌, ===_iff, refl, sym, ap, ◌∙◌, arith,
  Bool-cases,
}
use custom_net_framework.Address.{
  Address, Compared, below, equal, above, memcmp, less, equals, differs,
}

-- The lexicographic order.
pub lex : Bytes → Bytes → Bool
lex xs [] = false
lex [] (y ∷ ys) = true
lex (x ∷ xs) (y ∷ ys) = ltb x y || (x == y && lex xs ys)

-- The bytes in use.
abbrev pub visible : Address → Bytes
visible a = take a.size a.bytes

abbrev decide_less : ℕ → ℕ → Compared → Bool
decide_less m n below = true
decide_less m n above = false
decide_less m n equal = ltb m n

abbrev is_equal : Compared → Bool
is_equal below = false
is_equal above = false
is_equal equal = true

abbrev shorter : ℕ → ℕ → ℕ
shorter m n = if leb m n then m else n

shorter-zero : (n : ℕ) → shorter 0 n ≡ 0
shorter-zero n = ground arith

shorter_zero-suc : (m : ℕ) → shorter (suc m) 0 ≡ 0
shorter_zero-suc m = ground arith

shorter-suc : (m n : ℕ) → shorter (suc m) (suc n) ≡ suc (shorter m n)
shorter-suc m n = ground arith

decide_less-step :
    (m n x y : ℕ) (c : Compared) (r : Bool)
    → decide_less m n c ≡ r
    → decide_less (suc m) (suc n) (if ltb x y then below else if ltb y x then above else c)
      ≡ (ltb x y || (x == y && r))
decide_less-step m n x y below r e = ground (arith, e)
decide_less-step m n x y above r e = ground (arith, e)
decide_less-step m n x y equal r e = ground (arith, e)

memcmp-lex :
    (m n : ℕ) (xs ys : Bytes)
    → m ≤ length xs
    → n ≤ length ys
    → decide_less m n (memcmp (shorter m n) xs ys) ≡ lex (take m xs) (take n ys)
unfolding memcmp lex
memcmp-lex zero zero xs ys h k = refl
memcmp-lex zero (suc n) xs [] h k = absurd (omega (arith, k))
memcmp-lex zero (suc n) xs (y ∷ ys) h k =
    ap (λ i. decide_less 0 (suc n) (memcmp i xs (y ∷ ys))) (shorter-zero (suc n)) ∙ ground arith
memcmp-lex (suc m) n [] ys h k = absurd (omega (arith, h))
memcmp-lex (suc m) zero (x ∷ xs) ys h k =
    ap (λ i. decide_less (suc m) 0 (memcmp i (x ∷ xs) ys)) (shorter_zero-suc m) ∙ ground arith
memcmp-lex (suc m) (suc n) (x ∷ xs) [] h k = absurd (omega (arith, k))
memcmp-lex (suc m) (suc n) (x ∷ xs) (y ∷ ys) h k =
    let rest = memcmp-lex m n xs ys (omega (arith, h)) (omega (arith, k)) in
    ap (λ i. decide_less (suc m) (suc n) (memcmp i (x ∷ xs) (y ∷ ys))) (shorter-suc m n)
    ∙ decide_less-step m n x y (memcmp (shorter m n) xs ys) (lex (take m xs) (take n ys)) rest

memcmp-equal :
    (m : ℕ) (xs ys : Bytes)
    → m ≤ length xs
    → m ≤ length ys
    → is_equal (memcmp m xs ys) ≡ (take m xs === take m ys)
unfolding memcmp ◌===◌
memcmp-equal zero xs ys h k = refl
memcmp-equal (suc m) [] ys h k = absurd (omega (arith, h))
memcmp-equal (suc m) (x ∷ xs) [] h k = absurd (omega (arith, k))
memcmp-equal (suc m) (x ∷ xs) (y ∷ ys) h k =
    ground (arith, memcmp-equal m xs ys (omega (arith, h)) (omega (arith, k)))

length-take : (m : ℕ) (xs : Bytes) → m ≤ length xs → length (take m xs) ≡ m
length-take zero xs h = refl
length-take (suc m) [] h = absurd (omega (arith, h))
length-take (suc m) (x ∷ xs) h = ap suc (length-take m xs (omega (arith, h)))

lex_irrefl : (xs : Bytes) → lex xs xs ≡ false
unfolding lex
lex_irrefl [] = refl
lex_irrefl (x ∷ xs) = ground (arith, lex_irrefl xs)

lex_trans : (xs ys zs : Bytes) → lex xs ys ≡ true → lex ys zs ≡ true → lex xs zs ≡ true
unfolding lex
lex_trans xs ys [] h k = absurd (ground (arith, k))
lex_trans [] ys (z ∷ zs) h k = refl
lex_trans (x ∷ xs) [] (z ∷ zs) h k = absurd (ground (arith, h))
lex_trans (x ∷ xs) (y ∷ ys) (z ∷ zs) h k = ground (arith, h, k, lex_trans xs ys zs)

lex_total : (xs ys : Bytes) → (lex xs ys || (lex ys xs || xs === ys)) ≡ true
unfolding lex ◌===◌
lex_total [] [] = refl
lex_total [] (y ∷ ys) = refl
lex_total (x ∷ xs) [] = refl
lex_total (x ∷ xs) (y ∷ ys) = ground (arith, lex_total xs ys)

-- The length does not exceed the bytes that there are.
abbrev pub IsAddress : Address → Type 0
IsAddress a = a.size ≤ length a.bytes

less-lex : (a b : Address) → IsAddress a → IsAddress b → less a b ≡ lex (visible a) (visible b)
unfolding less
less-lex a b h k = memcmp-lex a.size b.size a.bytes b.bytes h k

equals-same : (a b : Address) → IsAddress a → IsAddress b → equals a b ≡ (visible a === visible b)
unfolding equals
equals-same a b h k = elim (Bool-cases (a.size == b.size)) [
  | inl y ↦
      let same : a.size ≡ b.size = (==_iff a.size b.size).0 y in
      rw y (
        memcmp-equal a.size a.bytes b.bytes h (omega (arith, k, same))
        ∙ ap (λ n. visible a === take n b.bytes) same)
  | inr n ↦ elim (Bool-cases (visible a === visible b)) [
    | inr o ↦ ground (arith, n, o)
    | inl y ↦
        let longs = ap length ((===_iff (visible a) (visible b)).0 y) in
        absurd (
          ground (
            arith,
            n,
            ==_iff a.size b.size,
            sym (length-take a.size a.bytes h) ∙ longs ∙ length-take b.size b.bytes k,
          ))
  ]
]

-- For addresses whose length does not exceed their bytes: operator< is the lexicographic order of the
-- bytes in use, and operator== holds when these are the same bytes; operator< is irreflexive and
-- transitive, and of two addresses one is less or they are equal; operator!= is the negation.
pub order_lem :
    (a b c : Address)
    → IsAddress a
    → IsAddress b
    → IsAddress c
    → (less a b ≡ lex (visible a) (visible b))
      × ((equals a b ≡ true) ↔ (visible a ≡ visible b))
      × (less a a ≡ false)
      × (less a b ≡ true → less b c ≡ true → less a c ≡ true)
      × ((less a b || (less b a || equals a b)) ≡ true)
      × (differs a b ≡ not (equals a b))
unfolding differs
order_lem a b c h k l = (
  less-lex a b h k,
  rw (equals-same a b h k) (===_iff (visible a) (visible b)),
  less-lex a a h h ∙ lex_irrefl (visible a),
  λ p q.
      less-lex a c h l
      ∙ lex_trans (visible a) (visible b) (visible c) (sym (less-lex a b h k) ∙ p)
          (sym (less-lex b c k l) ∙ q),
  rw (less-lex a b h k, less-lex b a k h, equals-same a b h k) (lex_total (visible a) (visible b)),
  refl,
)
