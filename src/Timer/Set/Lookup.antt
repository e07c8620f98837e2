-- ===== src/Timer/Set/Lookup.antt =====
-- Finding and erasing in a sorted set: what `find` and `erase(it)` do to the list of elements.
use mathlib.Core.Option
use custom_net_framework.Prelude.{
  ◌↔◌, ℕ, suc, ◌≡◌, refl, inl, inr, true, false, none, some, List, [], ◌∷◌, arith, ◌==◌,
  if◌then◌else◌, contains, Bool-cases,
}
use custom_net_framework.Timer.Set.{Heap, less, lower_bound, find, erase_at}
use custom_net_framework.Timer.Set.Order.{
  less_irrefl, less_total, less_trans, less_asymm, Below, IsSorted, Below-contains,
}

-- The set without `p`.
abbrev pub remove : ℕ → List ℕ → List ℕ
remove p [] = []
remove p (q ∷ s) = if p == q then s else q ∷ remove p s

pub Below-remove : (h : Heap) (p q : ℕ) (s : List ℕ) → Below h q s → Below h q (remove p s)
Below-remove h p q [] b = tt
Below-remove h p q (r ∷ s) b = ground (arith, Below-remove h p q s b.1)

pub IsSorted-remove : (h : Heap) (p : ℕ) (s : List ℕ) → IsSorted h s → IsSorted h (remove p s)
IsSorted-remove h p [] o = tt
IsSorted-remove h p (q ∷ s) o = ground (arith, IsSorted-remove h p s o.1, Below-remove h p q s o.0)

pub contains-remove :
    (h : Heap) (p q : ℕ) (s : List ℕ)
    → IsSorted h s
    → contains q (remove p s) ≡ (if p == q then false else contains q s)
contains-remove h p q [] o = ground arith
contains-remove h p q (r ∷ s) o =
    ground (arith, contains-remove h p q s o.1, Below-contains h r s o.0)

-- Every element that follows the head is greater than it.
pub Below-less :
    (h : Heap) (p q : ℕ) (s : List ℕ) → Below h q s → contains p s ≡ true → less h q p ≡ true
Below-less h p q [] b c = cc
Below-less h p q (r ∷ s) b c = ground (arith, Below-less h p q s b.1)

find-cons :
    (h : Heap) (p q : ℕ) (s : List ℕ)
    → less h q p ≡ true
    → find h p (q ∷ s) ≡ Option.map suc (find h p s)
unfolding find lower_bound
find-cons h p q s e = ground arith

-- An element of the set is found, and erasing at its iterator removes it and nothing else.
pub find_member :
    (h : Heap) (p : ℕ) (s : List ℕ)
    → IsSorted h s
    → contains p s ≡ true
    → (it : ℕ) × (find h p s ≡ some it) × (erase_at it s ≡ remove p s)
unfolding erase_at
find_member h p [] o c = cc
find_member h p (q ∷ s) o c = elim (Bool-cases (p == q)) [
  | inl e ↦ (0, unfold find lower_bound in ground (arith, less_irrefl h p), ground arith)
  | inr e ↦
      let (it, found, erased) = find_member h p s o.1 (ground arith) in
      (suc it, ground (arith, find-cons h p q s, Below-less h p q s o.0), ground arith)
]

-- Whatever is found is an element.
pub find_absent : (h : Heap) (p : ℕ) (s : List ℕ) → contains p s ≡ false → find h p s ≡ none
unfolding find lower_bound
find_absent h p [] c = refl
find_absent h p (q ∷ s) c = elim (Bool-cases (less h q p)) [
  | inl e ↦ ground (arith, find-cons h p q s e, find_absent h p s)
  | inr e ↦ ground (arith, less_total h q p)
]

-- `p` goes to the front exactly when it precedes every element.
pub lower_bound_front :
    (h : Heap) (p : ℕ) (s : List ℕ)
    → IsSorted h s
    → contains p s ≡ false
    → ((lower_bound h p s == 0) ≡ true) ↔ ((q : ℕ) → contains q s ≡ true → less h p q ≡ true)
unfolding lower_bound
lower_bound_front h p [] o c = (λ e q f. cc, λ f. refl)
lower_bound_front h p (r ∷ s) o c = (to, from)
  where
    first : less h r p ≡ false → less h p r ≡ true
    first e = less_total h r p (ground arith) e

    to :
        (lower_bound h p (r ∷ s) == 0) ≡ true
        → (q : ℕ) → contains q (r ∷ s) ≡ true
        → less h p q ≡ true
    to e q f = elim (Bool-cases (q == r)) [
      | inl same ↦ ground (arith, first)
      | inr other ↦ ground (arith, first, less_trans h p r q, Below-less h q r s o.0)
    ]

    from :
        ((q : ℕ) → contains q (r ∷ s) ≡ true → less h p q ≡ true)
        → (lower_bound h p (r ∷ s) == 0) ≡ true
    from f = ground (arith, f r, less_asymm h p r)
