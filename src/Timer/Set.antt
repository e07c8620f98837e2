-- ===== src/Timer/Set.antt =====
-- The timer objects, their order (`Timer::Comparator`, timer.cpp) and the std::set operations that
-- timer.cpp calls, over the list of the set's elements in iteration order.
pub mod Order
pub mod Lookup
pub mod Insert
pub mod Due
use custom_net_framework.Prelude.{
  ℕ, zero, suc, Bool, true, false, ◌&&◌, Option, none, some, List, [], ◌∷◌, ◌==◌, ltb,
  if◌then◌else◌, get_elem?,
}

-- A std::function<void()>: a function of the caller, or `std::bind(&OnTimer, weak_cond, cb)`.
pub data Callback : Type 0 where
  plain : (cb : ℕ) → Callback
  on_timer : (weak_cond cb : ℕ) → Callback

-- What a call does, where `alive w` tells if `w.lock()` yields an object: the function that runs.
unfoldable pub invoke : (ℕ → Bool) → Callback → Option ℕ
invoke alive (plain cb) = some cb
invoke alive (on_timer w cb) = if alive w then some cb else none

pub record Timer : Type 0 where
  pub recurring : Bool
  pub ms : ℕ
  pub next : ℕ
  pub cb : Option Callback

-- Objects by address. An address that holds no timer reads as one with no callback; 0 is null.
abbrev pub Heap : Type 0
Heap = ℕ → Timer

-- `Timer::Comparator::operator()`.
unfoldable pub less : Heap → ℕ → ℕ → Bool
less h lhs rhs =
    if lhs == 0 && rhs == 0
    then false
    else if lhs == 0
    then true
    else if rhs == 0
    then false
    else if ltb (h lhs).next (h rhs).next
    then true
    else if ltb (h rhs).next (h lhs).next
    then false
    else ltb lhs rhs

-- An iterator is an index, and `end()` the number of elements.
unfoldable pub lower_bound : Heap → ℕ → List ℕ → ℕ
lower_bound h p [] = 0
lower_bound h p (q ∷ s) = if less h q p then suc (lower_bound h p s) else 0

-- `none` is `end()`.
unfoldable pub find : Heap → ℕ → List ℕ → Option ℕ
find h p s = elim (get_elem? s (lower_bound h p s)) [
  | none ↦ none
  | some q ↦ if less h p q then none else some (lower_bound h p s)
]

unfoldable pub insert : Heap → ℕ → List ℕ → List ℕ
insert h p [] = p ∷ []
insert h p (q ∷ s) =
    if less h q p then q ∷ insert h p s else if less h p q then p ∷ q ∷ s else q ∷ s

unfoldable pub erase_at : ℕ → List ℕ → List ℕ
erase_at n [] = []
erase_at zero (q ∷ s) = s
erase_at (suc n) (q ∷ s) = q ∷ erase_at n s

-- The loop `while(it != end() && (*it)->m_next == now_ms) ++it` of `listExpiredCb`.
unfoldable pub advance : Heap → ℕ → List ℕ → ℕ → ℕ
advance h now [] it = it
advance h now (q ∷ s) (suc it) = suc (advance h now s it)
advance h now (q ∷ s) zero = if (h q).next == now then suc (advance h now s zero) else 0
