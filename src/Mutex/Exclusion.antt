-- ===== src/Mutex/Exclusion.antt =====
-- Threads that use a CASLock through guards.
use mathlib.Core.List.{append-nil, append_assoc}
use custom_net_framework.Prelude.{
  ℕ, zero, suc, ◌+◌, ◌≤◌, ◌<◌, ◌≡◌, ◌⊎◌, inl, inr, refl, sym, subst, ◌∙◌, Bool, true, false, List,
  [], ◌∷◌, ◌++◌, arith, bit, All, map, length,
}
use custom_net_framework.Mutex.{
  GuardCall, scoped_lock, recorder, program, LockCall, lock, unlock, step, turn, turns, new_cas,
  test_and_set, clear_cas,
}
use custom_net_framework.Mutex.Guards.{cycles, guard_lem, acquires}

-- A thread whose next call is `unlock` is inside.
pub is_inside : List LockCall → Bool
is_inside (unlock ∷ cs) = true
is_inside _ = false

pub inside : List (List LockCall) → ℕ
inside [] = 0
inside (t ∷ ts) = bit (is_inside t) + inside ts

-- `lock` and `unlock` in turn, from outside or from inside on.
pub IsBracketed : Bool → List LockCall → Type 0
IsBracketed false [] = Unit
IsBracketed true [] = ⊥
IsBracketed false (lock ∷ cs) = IsBracketed true cs
IsBracketed true (lock ∷ cs) = ⊥
IsBracketed true (unlock ∷ cs) = IsBracketed false cs
IsBracketed false (unlock ∷ cs) = ⊥

pub IsUser : List LockCall → Type 0
IsUser t = IsBracketed (is_inside t) t

IsBracketed-inside : (b : Bool) (t : List LockCall) → IsBracketed b t → is_inside t ≡ b
unfolding IsBracketed is_inside
IsBracketed-inside false [] h = refl
IsBracketed-inside true [] h = absurd h
IsBracketed-inside false (lock ∷ cs) h = refl
IsBracketed-inside true (lock ∷ cs) h = absurd h
IsBracketed-inside true (unlock ∷ cs) h = refl
IsBracketed-inside false (unlock ∷ cs) h = absurd h

IsBracketed-IsUser : (b : Bool) (t : List LockCall) → IsBracketed b t → IsUser t
unfolding IsUser
IsBracketed-IsUser b t h = subst (λ x. IsBracketed x t) (sym (IsBracketed-inside b t h)) h

-- One turn of one thread, while the flag is set if the thread is inside.
step_lem :
    (flag : Bool) (t : List LockCall)
    → IsUser t
    → bit (is_inside t) ≤ bit flag
    → (bit (is_inside (step flag t).1) + bit flag ≡ bit (is_inside t) + bit (step flag t).0)
      × IsUser (step flag t).1
unfolding step test_and_set clear_cas IsUser is_inside IsBracketed
step_lem flag [] u h = (refl, u)
step_lem true (lock ∷ cs) u h = (refl, u)
step_lem false (lock ∷ cs) u h =
    (ground (arith, IsBracketed-inside true cs u), IsBracketed-IsUser true cs u)
step_lem flag (unlock ∷ cs) u h =
    (ground (arith, IsBracketed-inside false cs u), IsBracketed-IsUser false cs u)

turn_lem :
    (i : ℕ) (flag : Bool) (ts : List (List LockCall))
    → All IsUser ts
    → inside ts ≤ bit flag
    → (inside (turn i (flag, ts)).1 + bit flag ≡ inside ts + bit (turn i (flag, ts)).0)
      × All IsUser (turn i (flag, ts)).1
unfolding turn inside
turn_lem i flag [] u h = (refl, u)
turn_lem zero flag (t ∷ ts) u h =
    let (e, v) = step_lem flag t u.0 (omega (arith, h)) in (omega (arith, e), (v, u.1))
turn_lem (suc i) flag (t ∷ ts) u h =
    let (e, v) = turn_lem i flag ts u.1 (omega (arith, h)) in (omega (arith, e), (u.0, v))

turns_lem :
    (is : List ℕ) (flag : Bool) (ts : List (List LockCall))
    → All IsUser ts
    → inside ts ≡ bit flag
    → (inside (turns is (flag, ts)).1 ≡ bit (turns is (flag, ts)).0)
      × All IsUser (turns is (flag, ts)).1
unfolding turns
turns_lem [] flag ts u h = (h, u)
turns_lem (i ∷ is) flag ts u h =
    let (e, v) = turn_lem i flag ts u (omega (arith, h)) in
    turns_lem is (turn i (flag, ts)).0 (turn i (flag, ts)).1 v (omega (arith, e, h))

pub calls_left : List (List LockCall) → ℕ
calls_left [] = 0
calls_left (t ∷ ts) = length t + calls_left ts

-- Some thread's turn leaves fewer calls, or there are none.
abbrev pub Moves : Bool × List (List LockCall) → Type 0
Moves w = (calls_left w.1 ≡ 0) ⊎ ((i : ℕ) × (calls_left (turn i w).1 < calls_left w.1))

leaves :
    (flag : Bool) (ts : List (List LockCall))
    → 0 < inside ts
    → (i : ℕ) × (calls_left (turn i (flag, ts)).1 < calls_left ts)
unfolding turn step calls_left inside is_inside
leaves flag [] h = absurd (omega (arith, h))
leaves flag ([] ∷ ts) h =
    let (i, m) = leaves flag ts (omega (arith, h)) in (suc i, omega (arith, m))
leaves flag ((unlock ∷ cs) ∷ ts) h = (0, omega arith)
leaves flag ((lock ∷ cs) ∷ ts) h =
    let (i, m) = leaves flag ts (omega (arith, h)) in (suc i, omega (arith, m))

enters : (ts : List (List LockCall)) → Moves (false, ts)
unfolding turn step test_and_set calls_left
enters [] = inl refl
enters ([] ∷ ts) = elim (enters ts) [
  | inl z ↦ inl (omega (arith, z))
  | inr (i, m) ↦ inr (suc i, omega (arith, m))
]
enters ((unlock ∷ cs) ∷ ts) = inr (0, omega arith)
enters ((lock ∷ cs) ∷ ts) = inr (0, omega arith)

moves : (flag : Bool) (ts : List (List LockCall)) → inside ts ≡ bit flag → Moves (flag, ts)
moves false ts h = enters ts
moves true ts h = inr (leaves true ts (omega (arith, h)))

-- Calls after which a thread is outside again.
abbrev IsWhole : List LockCall → Type 0
IsWhole t = (cs : List LockCall) → IsBracketed false cs → IsBracketed false (t ++ cs)

cycles-IsWhole :
    (n : ℕ) (t : List LockCall) → IsWhole t → IsWhole (cycles (recorder.lock) (recorder.unlock) n t)
unfolding cycles recorder IsBracketed
cycles-IsWhole zero t h cs u = h cs u
cycles-IsWhole (suc n) t h cs u =
    let r = cycles (recorder.lock) (recorder.unlock) n t in
    subst (IsBracketed false)
      (sym (
        append_assoc (r ++ (lock ∷ [])) (unlock ∷ []) cs
        ∙ append_assoc r (lock ∷ []) (unlock ∷ cs)))
      (cycles-IsWhole n t h (lock ∷ unlock ∷ cs) u)

program-IsWhole :
    (lives : List (List GuardCall)) (t : List LockCall) → IsWhole t → IsWhole (program lives t)
unfolding program scoped_lock
program-IsWhole [] t h = h
program-IsWhole (c ∷ lives) t h =
    let (_, _, _, e) = guard_lem (recorder.lock) (recorder.unlock) c t in
    program-IsWhole lives (scoped_lock recorder c t)
      (subst IsWhole (sym e) (cycles-IsWhole (suc (acquires true c)) t h))

-- Threads that use the lock through guards only.
abbrev pub start : List (List (List GuardCall)) → Bool × List (List LockCall)
start threads = (new_cas, map (λ lives. program lives []) threads)

program-outside : (lives : List (List GuardCall)) → IsBracketed false (program lives [])
unfolding IsBracketed
program-outside lives =
    subst (IsBracketed false) (append-nil (program lives []))
      (program-IsWhole lives [] (λ cs u. u) [] tt)

program-IsUser : (lives : List (List GuardCall)) → IsUser (program lives [])
program-IsUser lives = IsBracketed-IsUser false (program lives []) (program-outside lives)

start-users : (threads : List (List (List GuardCall))) → All IsUser (start threads).1
start-users [] = tt
start-users (l ∷ ls) = (program-IsUser l, start-users ls)

start-outside : (threads : List (List (List GuardCall))) → inside (start threads).1 ≡ 0
unfolding inside
start-outside [] = refl
start-outside (l ∷ ls) =
    ground (arith, IsBracketed-inside false (program l []) (program-outside l), start-outside ls)

-- Any number of threads, each of which makes guards on one CASLock one after another, a guard only
-- when the one before it has been destroyed, with any calls on each, in any order of the threads'
-- turns: the number of threads that are inside is 1 when the flag is set and 0
-- when it is clear; and, unless no thread has calls left, there is a thread whose turn completes
-- its next call.
pub exclusion_lem :
    (threads : List (List (List GuardCall))) (is : List ℕ)
    → let w = turns is (start threads) in (inside w.1 ≡ bit w.0) × Moves w
unfolding new_cas
exclusion_lem threads is =
    let (e, _) =
      turns_lem is new_cas (start threads).1 (start-users threads) (start-outside threads) in
    (e, moves (turns is (start threads)).0 (turns is (start threads)).1 e)
