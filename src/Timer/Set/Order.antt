-- ===== src/Timer/Set/Order.antt =====
-- The order on timers (`Timer::Comparator`) is a strict total order, and sorted lists under it.
use custom_net_framework.Prelude.{
  ◌⊎◌, inl, inr, ◌≤◌, Bool-cases, ℕ, ◌≡◌, ◌≢◌, refl, true, false, List, [], ◌∷◌, arith, contains,
  update,
}
use custom_net_framework.Timer.Set.{Timer, Heap, less}

pub less_irrefl : (h : Heap) (p : ℕ) → less h p p ≡ false
unfolding less
less_irrefl h p = ground arith

pub less_asymm : (h : Heap) (p q : ℕ) → less h p q ≡ true → less h q p ≡ false
unfolding less
less_asymm h p q e = ground arith

pub less_trans : (h : Heap) (p q r : ℕ) → less h p q ≡ true → less h q r ≡ true → less h p r ≡ true
unfolding less
less_trans h p q r e f = ground arith

pub less_total : (h : Heap) (p q : ℕ) → p ≢ q → less h p q ≡ false → less h q p ≡ true
unfolding less
less_total h p q e f = ground arith

-- The order reads nothing of a timer but its time.
pub less-congr :
    (g h : Heap) (p q : ℕ)
    → (g p).next ≡ (h p).next
    → (g q).next ≡ (h q).next
    → less g p q ≡ less h p q
unfolding less
less-congr g h p q e f = ground arith

-- `p` comes before every element of the list.
abbrev pub Below : Heap → ℕ → List ℕ → Type 0
Below h p [] = Unit {0}
Below h p (q ∷ s) = (less h p q ≡ true) × Below h p s

abbrev pub IsSorted : Heap → List ℕ → Type 0
IsSorted h [] = Unit {0}
IsSorted h (p ∷ s) = Below h p s × IsSorted h s

pub Below-trans : (h : Heap) (p q : ℕ) (s : List ℕ) → less h p q ≡ true → Below h q s → Below h p s
Below-trans h p q [] e b = tt
Below-trans h p q (r ∷ s) e b = (less_trans h p q r e b.0, Below-trans h p q s e b.1)

pub Below-contains : (h : Heap) (p : ℕ) (s : List ℕ) → Below h p s → contains p s ≡ false
Below-contains h p [] b = refl
Below-contains h p (q ∷ s) b = ground (arith, less_irrefl h p, Below-contains h p s b.1)

-- Two heaps give the elements of a list the same times.
abbrev pub SameTimes : Heap → Heap → List ℕ → Type 0
SameTimes g h [] = Unit {0}
SameTimes g h (p ∷ s) = ((g p).next ≡ (h p).next) × SameTimes g h s

Below-SameTimes :
    (g h : Heap) (p : ℕ) (s : List ℕ)
    → (g p).next ≡ (h p).next
    → SameTimes g h s
    → Below g p s
    → Below h p s
Below-SameTimes g h p [] e a b = tt
Below-SameTimes g h p (q ∷ s) e a b =
    (ground (arith, less-congr g h p q), Below-SameTimes g h p s e a.1 b.1)

pub IsSorted-SameTimes : (g h : Heap) (s : List ℕ) → SameTimes g h s → IsSorted g s → IsSorted h s
IsSorted-SameTimes g h [] a o = tt
IsSorted-SameTimes g h (p ∷ s) a o =
    (Below-SameTimes g h p s a.0 a.1 o.0, IsSorted-SameTimes g h s a.1 o.1)

-- A write to a timer that is not in the list, or that keeps its time, is not seen.
pub SameTimes-update :
    (h : Heap) (p : ℕ) (t : Timer) (s : List ℕ)
    → contains p s ≡ false
    → SameTimes h (update h p t) s
SameTimes-update h p t [] c = tt
SameTimes-update h p t (q ∷ s) c = (ground arith, SameTimes-update h p t s (ground arith))

pub SameTimes-everywhere :
    (g h : Heap) (s : List ℕ) → ((p : ℕ) → (g p).next ≡ (h p).next) → SameTimes g h s
SameTimes-everywhere g h [] e = tt
SameTimes-everywhere g h (p ∷ s) e = (e p, SameTimes-everywhere g h s e)

pub IsSorted-update :
    (h : Heap) (p : ℕ) (t : Timer) (s : List ℕ)
    → contains p s ≡ false
    → IsSorted h s
    → IsSorted (update h p t) s
IsSorted-update h p t s c = IsSorted-SameTimes h (update h p t) s (SameTimes-update h p t s c)

pub IsSorted-update_same :
    (h : Heap) (p : ℕ) (t : Timer) (s : List ℕ)
    → t.next ≡ (h p).next
    → IsSorted h s
    → IsSorted (update h p t) s
IsSorted-update_same h p t s e =
    IsSorted-SameTimes h (update h p t) s
      (SameTimes-everywhere h (update h p t) s (λ q. ground arith))

-- `Timer::Comparator` is a strict total order on all pointers, null ones included: no pointer
-- precedes itself, the order is transitive, and of two different pointers one precedes the other.
pub less_strict_total :
    (h : Heap)
    → ((p : ℕ) → less h p p ≡ false)
      × ((p q r : ℕ) → less h p q ≡ true → less h q r ≡ true → less h p r ≡ true)
      × ((p q : ℕ) → p ≢ q → (less h p q ≡ true) ⊎ (less h q p ≡ true))
less_strict_total h = (
  less_irrefl h,
  less_trans h,
  λ p q ne. elim (Bool-cases (less h p q)) [ inl e ↦ inl e | inr e ↦ inr (less_total h p q ne e) ],
)

pub less-times :
    (h : Heap) (p q : ℕ) → p ≢ 0 → less h p q ≡ true → (q ≢ 0) × ((h p).next ≤ (h q).next)
unfolding less
less-times h p q nz e = ground arith
