-- ===== src/Timer/Set/Insert.antt =====
-- Inserting into a sorted set.
use custom_net_framework.Prelude.{ℕ, ◌≡◌, refl, true, ◌||◌, List, [], ◌∷◌, arith, ◌==◌, contains}
use custom_net_framework.Timer.Set.{Heap, less, insert}
use custom_net_framework.Timer.Set.Order.{less_total, Below, IsSorted, Below-trans}

Below-insert :
    (h : Heap) (p q : ℕ) (s : List ℕ) → less h q p ≡ true → Below h q s → Below h q (insert h p s)
unfolding insert
Below-insert h p q [] e b = (e, tt)
Below-insert h p q (r ∷ s) e b = ground (arith, Below-insert h p q s e b.1)

pub IsSorted-insert : (h : Heap) (p : ℕ) (s : List ℕ) → IsSorted h s → IsSorted h (insert h p s)
unfolding insert
IsSorted-insert h p [] o = (tt, tt)
IsSorted-insert h p (q ∷ s) o =
    ground (arith, IsSorted-insert h p s o.1, Below-insert h p q s, Below-trans h p q s)

-- No two pointers are equivalent, so `insert` always leaves its argument in the set.
pub contains-insert :
    (h : Heap) (p q : ℕ) (s : List ℕ) → contains q (insert h p s) ≡ (q == p || contains q s)
unfolding insert
contains-insert h p q [] = refl
contains-insert h p q (r ∷ s) = ground (arith, contains-insert h p q s, less_total h p r)
