-- ===== src/Address/Compress.antt =====
-- The run of zeros that `IPv6Address::insert` leaves out, and what its text reads back to.
use custom_net_framework.Prelude.{
  ℕ, suc, ◌+◌, ◌-◌, ◌≡◌, ◌⊎◌, true, false, Option, none, some, List, [], ◌∷◌, ◌++◌, ◌==◌,
  if◌then◌else◌, ==_iff, length, replicate, map, refl, sym, ap, ◌∙◌, arith, inl, inr, Bool-cases,
}
use custom_net_framework.Endian.{byteswap}
use custom_net_framework.Address.{Token, colon, group, print_groups}

-- A side of a text after one of its groups: each further group has one colon before it.
pub groups_after : List Token → Option (List ℕ)
groups_after [] = some []
groups_after (colon ∷ group g ∷ ts) = elim (groups_after ts) [
  | none ↦ none
  | some gs ↦ some (g ∷ gs)
]
groups_after (colon ∷ colon ∷ ts) = none
groups_after (colon ∷ []) = none
groups_after (group g ∷ ts) = none

-- What follows a double colon: nothing, or groups with a colon between any two.
pub groups : List Token → Option (List ℕ)
unfolding groups_after
groups [] = some []
groups (group g ∷ ts) = elim (groups_after ts) [ none ↦ none | some gs ↦ some (g ∷ gs) ]
groups (colon ∷ ts) = none

-- The groups before a double colon, and, if there is one, those after it.
abbrev pub Sides : Type 0
Sides = List ℕ × Option (List ℕ)

-- After a group.
pub sides_after : List Token → Option Sides
unfolding groups
sides_after [] = some ([], none)
sides_after (colon ∷ group g ∷ ts) = elim (sides_after ts) [
  | none ↦ none
  | some (gs, after) ↦ some (g ∷ gs, after)
]
sides_after (colon ∷ colon ∷ ts) = elim (groups ts) [ none ↦ none | some gs ↦ some ([], some gs) ]
sides_after (colon ∷ []) = none
sides_after (group g ∷ ts) = none

-- From the start.
pub sides : List Token → Option Sides
unfolding sides_after
sides [] = none
sides (colon ∷ []) = none
sides (colon ∷ group g ∷ ts) = none
sides (colon ∷ colon ∷ ts) = elim (groups ts) [ none ↦ none | some gs ↦ some ([], some gs) ]
sides (group g ∷ ts) = elim (sides_after ts) [
  | none ↦ none
  | some (gs, after) ↦ some (g ∷ gs, after)
]

-- A double colon stands for the zeros that eight groups lack; without one there are eight.
pub expand : Sides → Option (List ℕ)
expand (gs, none) = if length gs == 8 then some gs else none
expand (gs, some after) = some (gs ++ (replicate (8 - length gs - length after) 0 ++ after))

abbrev pub swapped : List ℕ → List ℕ
swapped gs = map (byteswap 2) gs

-- Once zeros have been left out, every group is printed.
print_used : (p : ℕ) (gs : List ℕ) → groups_after (print_groups true p true gs) ≡ some (swapped gs)
unfolding print_groups groups_after
print_used p [] = refl
print_used p (g ∷ gs) = ground (arith, print_used g gs)

-- A split text, and the groups that it stands for: `zeros` of them are left out.
record Shortened (gs before after : List ℕ) (zeros : ℕ) : Type 0 where
  whole : gs ≡ before ++ (replicate zeros 0 ++ after)
  count : length gs ≡ length before + zeros + length after

swap_zero : byteswap 2 0 ≡ 0
unfolding byteswap
swap_zero = refl

-- After a zero, a double colon comes next.
print_zeros :
    (gs : List ℕ)
    → (ts : List Token) × (zeros : ℕ) × (after : List ℕ) × (print_groups true 0 false gs
        ≡ colon ∷ colon ∷ ts)
      × (groups ts ≡ some after)
      × Shortened (swapped gs) [] after zeros
unfolding print_groups groups
print_zeros [] = ([], 0, [], refl, refl, record { whole = refl; count = refl })
print_zeros (g ∷ gs) = elim (Bool-cases (g == 0)) [
  | inl y ↦
      let z : g ≡ 0 = (==_iff g 0).0 y in
      let (ts, zeros, after, e, r, s) = print_zeros gs in
      (
        ts,
        suc zeros,
        after,
        ground (arith, y, e, z),
        r,
        record { whole = ground (arith, z, swap_zero, s.whole); count = ground (arith, s.count) },
      )
  | inr n ↦ (
    group (byteswap 2 g) ∷ print_groups true g true gs,
    0,
    swapped (g ∷ gs),
    ground (arith, n),
    ground (arith, print_used g gs),
    record { whole = refl; count = omega arith },
  )
]

-- After a group that is not zero, as long as no zero has been met.
print_after :
    (p : ℕ) (gs : List ℕ)
    → (p == 0) ≡ false
    → (sides_after (print_groups true p false gs) ≡ some (swapped gs, none))
      ⊎ ((before after : List ℕ) × (zeros : ℕ) × (sides_after (print_groups true p false gs)
            ≡ some (before, some after))
          × Shortened (swapped gs) before after zeros)
unfolding print_groups sides_after
print_after p [] h = inl (ground (arith, h))
print_after p (g ∷ gs) h = elim (Bool-cases (g == 0)) [
  | inl y ↦
      let z : g ≡ 0 = (==_iff g 0).0 y in
      let (ts, zeros, after, e, r, s) = print_zeros gs in
      inr (
        [],
        after,
        suc zeros,
        ground (arith, y, e, z, r),
        record { whole = ground (arith, z, swap_zero, s.whole); count = ground (arith, s.count) },
      )
  | inr n ↦ elim (print_after g gs n) [
    | inl e ↦ inl (ground (arith, n, h, e))
    | inr (before, after, zeros, e, s) ↦ inr (
      byteswap 2 g ∷ before,
      after,
      zeros,
      ground (arith, n, h, e),
      record { whole = ap (λ l. byteswap 2 g ∷ l) s.whole; count = ground (arith, s.count) },
    )
  ]
]

-- From the start, where the group before counts as 1.
print_first :
    (g : ℕ) (gs : List ℕ)
    → (sides (print_groups false 1 false (g ∷ gs)) ≡ some (swapped (g ∷ gs), none))
      ⊎ ((before after : List ℕ) × (zeros : ℕ) × (sides (print_groups false 1 false (g ∷ gs))
            ≡ some (before, some after))
          × Shortened (swapped (g ∷ gs)) before after zeros)
unfolding print_groups sides
print_first g gs = elim (Bool-cases (g == 0)) [
  | inl y ↦
      let z : g ≡ 0 = (==_iff g 0).0 y in
      let (ts, zeros, after, e, r, s) = print_zeros gs in
      inr (
        [],
        after,
        suc zeros,
        ground (arith, y, e, z, r),
        record { whole = ground (arith, z, swap_zero, s.whole); count = ground (arith, s.count) },
      )
  | inr n ↦ elim (print_after g gs n) [
    | inl e ↦ inl (ground (arith, n, e))
    | inr (before, after, zeros, e, s) ↦ inr (
      byteswap 2 g ∷ before,
      after,
      zeros,
      ground (arith, n, e),
      record { whole = ap (λ l. byteswap 2 g ∷ l) s.whole; count = ground (arith, s.count) },
    )
  ]
]

length-map : (f : ℕ → ℕ) (xs : List ℕ) → length (map f xs) ≡ length xs
length-map f [] = refl
length-map f (x ∷ xs) = ap suc (length-map f xs)

pub read_tokens :
    (gs : List ℕ)
    → length gs ≡ 8
    → (elim (sides (print_groups false 1 false gs)) [ none ↦ none | some s ↦ expand s ])
      ≡ some (swapped gs)
unfolding expand
read_tokens [] h = absurd (omega (arith, h))
read_tokens (g ∷ gs) h = elim (print_first g gs) [
  | inl e ↦ ground (arith, e, h, length-map (byteswap 2) (g ∷ gs))
  | inr (before, after, zeros, e, s) ↦
      let k : zeros ≡ 8 - length before - length after =
        omega (arith, s.count, h, length-map (byteswap 2) (g ∷ gs)) in
      ground (arith, e)
      ∙ ap (λ z. some (before ++ (replicate z 0 ++ after))) (sym k)
      ∙ ap some (sym s.whole)
]
