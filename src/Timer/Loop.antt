-- ===== src/Timer/Loop.antt =====
-- The loop of `TimerManager::listExpiredCb` over the expired timers.
use custom_net_framework.Prelude.{
  ℕ, ◌≡◌, refl, Bool, true, false, ◌&&◌, ◌||◌, Option, List, [], ◌∷◌, map, arith, if◌then◌else◌,
  contains, update,
}
use custom_net_framework.Timer.Set.{Timer, Callback, Heap, insert}
use custom_net_framework.Timer.Set.Order.{IsSorted, Below-contains, IsSorted-update}
use custom_net_framework.Timer.Set.Insert.{IsSorted-insert, contains-insert}
use custom_net_framework.Timer.{TimerManager, expired_timer, expire_one, expire}

-- No pointer occurs twice.
abbrev pub IsDistinct : List ℕ → Type 0
IsDistinct [] = Unit {0}
IsDistinct (p ∷ s) = (contains p s ≡ false) × IsDistinct s

pub IsSorted-IsDistinct : (h : Heap) (s : List ℕ) → IsSorted h s → IsDistinct s
IsSorted-IsDistinct h [] o = tt
IsSorted-IsDistinct h (p ∷ s) o = (Below-contains h p s o.0, IsSorted-IsDistinct h s o.1)

abbrev pub callbacks : Heap → List ℕ → List (Option Callback)
callbacks h s = map (λ p. (h p).cb) s

pub callbacks-update :
    (h : Heap) (p : ℕ) (t : Timer) (s : List ℕ)
    → contains p s ≡ false
    → callbacks (update h p t) s ≡ callbacks h s
callbacks-update h p t [] c = refl
callbacks-update h p t (q ∷ s) c = ground (arith, callbacks-update h p t s)

-- The loop returns the callbacks that the timers had, in order.
pub expire-callbacks :
    (now : ℕ) (ps : List ℕ) (m : TimerManager)
    → IsDistinct ps
    → (expire now ps m).1 ≡ callbacks m.heap ps
unfolding expire
expire-callbacks now [] m d = refl
expire-callbacks now (p ∷ ps) m d = rw (
  expire-callbacks now ps (expire_one now p m) d.1,
  callbacks-update m.heap p (expired_timer now (m.heap p)) ps d.0,
)

-- It treats each of them once, and no other timer.
pub expire-heap :
    (now : ℕ) (ps : List ℕ) (m : TimerManager) (q : ℕ)
    → IsDistinct ps
    → (expire now ps m).0.heap q
      ≡ (if contains q ps then expired_timer now (m.heap q) else m.heap q)
unfolding expire expire_one
expire-heap now [] m q d = refl
expire-heap now (p ∷ ps) m q d = ground (arith, expire-heap now ps (expire_one now p m) q d.1)

-- The recurring ones are in the set again.
pub expire-timers :
    (now : ℕ) (ps : List ℕ) (m : TimerManager) (q : ℕ)
    → IsDistinct ps
    → contains q (expire now ps m).0.timers
      ≡ (contains q m.timers || (contains q ps && (m.heap q).recurring))
unfolding expire expire_one
expire-timers now [] m q d = ground arith
expire-timers now (p ∷ ps) m q d = ground (
  arith,
  expire-timers now ps (expire_one now p m) q d.1,
  contains-insert (update m.heap p (expired_timer now (m.heap p))) p q m.timers,
)

abbrev pub IsDisjoint : List ℕ → List ℕ → Type 0
IsDisjoint [] s = Unit {0}
IsDisjoint (p ∷ ps) s = (contains p s ≡ false) × IsDisjoint ps s

IsDisjoint-insert :
    (h : Heap) (p : ℕ) (ps s : List ℕ)
    → contains p ps ≡ false
    → IsDisjoint ps s
    → IsDisjoint ps (insert h p s)
IsDisjoint-insert h p [] s c d = tt
IsDisjoint-insert h p (r ∷ ps) s c d =
    (ground (arith, contains-insert h p r s), IsDisjoint-insert h p ps s (ground arith) d.1)

-- The set after one turn, where `b` tells if the timer is recurring.
turn-IsSorted :
    (b : Bool) (h : Heap) (p : ℕ) (s : List ℕ)
    → IsSorted h s
    → IsSorted h (if b then insert h p s else s)
turn-IsSorted true h p s o = IsSorted-insert h p s o
turn-IsSorted false h p s o = o

turn-IsDisjoint :
    (b : Bool) (h : Heap) (p : ℕ) (ps s : List ℕ)
    → contains p ps ≡ false
    → IsDisjoint ps s
    → IsDisjoint ps (if b then insert h p s else s)
turn-IsDisjoint true h p ps s c d = IsDisjoint-insert h p ps s c d
turn-IsDisjoint false h p ps s c d = d

-- Putting timers back keeps the set sorted.
pub expire-IsSorted :
    (now : ℕ) (ps : List ℕ) (m : TimerManager)
    → IsDistinct ps
    → IsDisjoint ps m.timers
    → IsSorted m.heap m.timers
    → IsSorted (expire now ps m).0.heap (expire now ps m).0.timers
unfolding expire expire_one
expire-IsSorted now [] m d j o = o
expire-IsSorted now (p ∷ ps) m d j o =
    let t = expired_timer now (m.heap p) in
    expire-IsSorted now ps (expire_one now p m) d.1
      (turn-IsDisjoint (m.heap p).recurring (update m.heap p t) p ps m.timers d.0 j.1)
      (turn-IsSorted (m.heap p).recurring (update m.heap p t) p m.timers
        (IsSorted-update m.heap p t m.timers j.0 o))

pub IsDisjoint-of :
    (ps s : List ℕ) → ((p : ℕ) → contains p ps ≡ true → contains p s ≡ false) → IsDisjoint ps s
IsDisjoint-of [] s f = tt
IsDisjoint-of (p ∷ ps) s f = (f p (ground arith), IsDisjoint-of ps s (λ q e. f q (ground arith)))

pub expire-times :
    (now : ℕ) (ps : List ℕ) (m : TimerManager)
    → ((expire now ps m).0.previouse_time ≡ m.previouse_time)
      × ((expire now ps m).0.tickled ≡ m.tickled)
unfolding expire expire_one
expire-times now [] m = (refl, refl)
expire-times now (p ∷ ps) m = expire-times now ps (expire_one now p m)
