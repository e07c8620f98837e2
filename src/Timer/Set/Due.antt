-- ===== src/Timer/Set/Due.antt =====
-- Where `listExpiredCb` cuts the set: `lower_bound(now_timer)` and the loop over equal times.
use custom_net_framework.Prelude.{
  ℕ, suc, ◌≤◌, ◌<◌, ◌≡◌, ◌≢◌, refl, ap, inl, inr, false, List, [], ◌∷◌, arith, ◌==◌, not, ◌&&◌,
  update, leb, if◌then◌else◌, contains, All, take, drop, length, Bool-cases,
}
use custom_net_framework.Timer.Set.{Timer, Heap, less, lower_bound, advance}
use custom_net_framework.Timer.Set.Order.{Below, IsSorted}

-- The timers whose time has come, and those whose time has not.
pub due : Heap → ℕ → List ℕ → List ℕ
due h now [] = []
due h now (p ∷ s) = let rest = due h now s in if leb (h p).next now then p ∷ rest else rest

pub later : Heap → ℕ → List ℕ → List ℕ
later h now [] = []
later h now (p ∷ s) = let rest = later h now s in if leb (h p).next now then rest else p ∷ rest

Below-times :
    (h : Heap) (p : ℕ) (s : List ℕ)
    → p ≢ 0
    → contains 0 s ≡ false
    → Below h p s
    → All (λ q. (h p).next ≤ (h q).next) s
unfolding less
Below-times h p [] nz z b = tt
Below-times h p (q ∷ s) nz z b = (ground arith, Below-times h p s nz (ground arith) b.1)

All-le :
    (h : Heap) (k n : ℕ) (s : List ℕ)
    → k ≤ n
    → All (λ q. n ≤ (h q).next) s
    → All (λ q. k ≤ (h q).next) s
All-le h k n [] e a = tt
All-le h k n (q ∷ s) e a = (omega arith, All-le h k n s e a.1)

due-All : (h : Heap) (now : ℕ) (s : List ℕ) → All (λ q. suc now ≤ (h q).next) s → due h now s ≡ []
unfolding due
due-All h now [] a = refl
due-All h now (q ∷ s) a = ground (arith, due-All h now s a.1)

later-All :
    (h : Heap) (now : ℕ) (s : List ℕ) → All (λ q. suc now ≤ (h q).next) s → later h now s ≡ s
unfolding later
later-All h now [] a = refl
later-All h now (q ∷ s) a = ground (arith, later-All h now s a.1)

-- The cut at index `n` splits the set into the due timers and the others.
abbrev pub Cuts : Heap → ℕ → List ℕ → ℕ → Type 0
Cuts h now s n = (take n s ≡ due h now s) × (drop n s ≡ later h now s)

-- From the first timer with `next >= now` on, the loop skips just those with `next == now`.
advance_equal :
    (h : Heap) (now : ℕ) (s : List ℕ)
    → IsSorted h s
    → contains 0 s ≡ false
    → All (λ q. now ≤ (h q).next) s
    → Cuts h now s (advance h now s 0)
unfolding advance due later
advance_equal h now [] o z a = (refl, refl)
advance_equal h now (r ∷ s) o z a = elim (Bool-cases ((h r).next == now)) [
  | inl e ↦ let ih = advance_equal h now s o.1 (ground arith) a.1 in (ground arith, ground arith)
  | inr e ↦
      let b : All (λ q. (h r).next ≤ (h q).next) s =
        Below-times h r s (ground arith) (ground arith) o.0 in
      let c : All (λ q. suc now ≤ (h q).next) s =
        All-le h (suc now) (h r).next s (ground arith) b in
      (ground (arith, due-All h now s c), ground (arith, later-All h now s c))
]

pub advance-lower_bound :
    (h : Heap) (now q : ℕ) (s : List ℕ)
    → IsSorted h s
    → contains 0 s ≡ false
    → q ≢ 0
    → contains q s ≡ false
    → (h q).next ≡ now
    → Cuts h now s (advance h now s (lower_bound h q s))
unfolding advance lower_bound due later less
advance-lower_bound h now q [] o z nz fresh e = (refl, refl)
advance-lower_bound h now q (r ∷ s) o z nz fresh e = elim (Bool-cases (less h r q)) [
  | inl before ↦
      let ih = advance-lower_bound h now q s o.1 (ground arith) nz (ground arith) e in
      (ground arith, ground arith)
  | inr after ↦
      let b : All (λ p. (h r).next ≤ (h p).next) s =
        Below-times h r s (ground arith) (ground arith) o.0 in
      let c : All (λ p. now ≤ (h p).next) s = All-le h now (h r).next s (ground arith) b in
      rw after (advance_equal h now (r ∷ s) o z (ground arith, c))
]

-- At `end()` the loop stops at once, and everything is cut off.
pub advance_end : (h : Heap) (now : ℕ) (s : List ℕ) → advance h now s (length s) ≡ length s
unfolding advance
advance_end h now [] = refl
advance_end h now (r ∷ s) = ap suc (advance_end h now s)

pub take_all : (s : List ℕ) → (take (length s) s ≡ s) × (drop (length s) s ≡ [])
take_all [] = (refl, refl)
take_all (r ∷ s) = (ap (◌∷◌ r) (take_all s).0, (take_all s).1)

pub contains-due :
    (h : Heap) (now p : ℕ) (s : List ℕ)
    → contains p (due h now s) ≡ (contains p s && leb (h p).next now)
unfolding due
contains-due h now p [] = refl
contains-due h now p (r ∷ s) = ground (arith, contains-due h now p s)

pub contains-later :
    (h : Heap) (now p : ℕ) (s : List ℕ)
    → contains p (later h now s) ≡ (contains p s && not (leb (h p).next now))
unfolding later
contains-later h now p [] = refl
contains-later h now p (r ∷ s) = ground (arith, contains-later h now p s)

Below-later : (h : Heap) (now p : ℕ) (s : List ℕ) → Below h p s → Below h p (later h now s)
unfolding later
Below-later h now p [] b = tt
Below-later h now p (r ∷ s) b = ground (arith, Below-later h now p s b.1)

pub IsSorted-later : (h : Heap) (now : ℕ) (s : List ℕ) → IsSorted h s → IsSorted h (later h now s)
unfolding later
IsSorted-later h now [] o = tt
IsSorted-later h now (r ∷ s) o =
    ground (arith, IsSorted-later h now s o.1, Below-later h now r s o.0)

Below-due : (h : Heap) (now p : ℕ) (s : List ℕ) → Below h p s → Below h p (due h now s)
unfolding due
Below-due h now p [] b = tt
Below-due h now p (r ∷ s) b = ground (arith, Below-due h now p s b.1)

pub IsSorted-due : (h : Heap) (now : ℕ) (s : List ℕ) → IsSorted h s → IsSorted h (due h now s)
unfolding due
IsSorted-due h now [] o = tt
IsSorted-due h now (r ∷ s) o = ground (arith, IsSorted-due h now s o.1, Below-due h now r s o.0)

pub due-update :
    (h : Heap) (now q : ℕ) (t : Timer) (s : List ℕ)
    → contains q s ≡ false
    → (due (update h q t) now s ≡ due h now s) × (later (update h q t) now s ≡ later h now s)
unfolding due later
due-update h now q t [] c = (refl, refl)
due-update h now q t (r ∷ s) c =
    (ground (arith, due-update h now q t s), ground (arith, due-update h now q t s))

-- If the first timer is not due, none is.
pub due_first :
    (h : Heap) (now p : ℕ) (s : List ℕ)
    → IsSorted h (p ∷ s)
    → contains 0 (p ∷ s) ≡ false
    → now < (h p).next
    → due h now (p ∷ s) ≡ []
due_first h now p s o z e =
    let b : All (λ q. (h p).next ≤ (h q).next) s =
      Below-times h p s (ground arith) (ground arith) o.0 in
    due-All h now (p ∷ s) (e, All-le h (suc now) (h p).next s e b)
