-- ===== src/IoManager/Books.antt =====
-- The table of contexts and the count of pending events agree.
use custom_net_framework.Prelude.{
  ℕ, zero, suc, ◌+◌, ◌-◌, ◌≤◌, ◌<◌, ◌≡◌, refl, ap, ◌∙◌, subst, inl, inr, none, some, List, [], ◌∷◌,
  ◌++◌, arith, ◌==◌, if◌then◌else◌, u64, get_elem?, length, take, set, Bool-cases,
}
use custom_net_framework.IoManager.Events.{has_event}
use custom_net_framework.IoManager.Context.{FdContext, fresh_context}
use custom_net_framework.IoManager.Slots.{IsContext, weight}
use custom_net_framework.IoManager.{fresh_contexts}

-- How many events are waited for.
pub waiting : List FdContext → ℕ
waiting [] = 0
waiting (c ∷ cs) = weight c + waiting cs

-- The events that the table has for a descriptor.
abbrev pub events_at : List FdContext → ℕ → ℕ
events_at cs fd = elim (get_elem? cs fd) [ none ↦ 0 | some c ↦ c.events ]

pub record Books (cs : List FdContext) (pending : ℕ) : Type 0 where
  pub contexts : (fd : ℕ) (c : FdContext) → get_elem? cs fd ≡ some c → IsContext c × (c.fd ≡ fd)
  pub pending_exact : pending ≡ u64 (waiting cs)
  pub sized : 32 ≤ length cs

pub waiting-set :
    (cs : List FdContext) (fd : ℕ) (c c' : FdContext)
    → get_elem? cs fd ≡ some c
    → waiting (set cs fd c') + weight c ≡ waiting cs + weight c'
unfolding waiting
waiting-set [] fd c c' e = cc
waiting-set (x ∷ cs) zero c c' e = ground arith
waiting-set (x ∷ cs) (suc fd) c c' e = omega (arith, waiting-set cs fd c c' e)

pub get_elem?-set :
    (cs : List FdContext) (fd j : ℕ) (c c' : FdContext)
    → get_elem? cs fd ≡ some c
    → get_elem? (set cs fd c') j ≡ (if fd == j then some c' else get_elem? cs j)
get_elem?-set [] fd j c c' e = cc
get_elem?-set (x ∷ cs) zero zero c c' e = refl
get_elem?-set (x ∷ cs) zero (suc j) c c' e = ground arith
get_elem?-set (x ∷ cs) (suc fd) zero c c' e = ground arith
get_elem?-set (x ∷ cs) (suc fd) (suc j) c c' e = ground (arith, get_elem?-set cs fd j c c' e)

pub length-set : (cs : List FdContext) (fd : ℕ) (c : FdContext) → length (set cs fd c) ≡ length cs
length-set [] fd c = refl
length-set (x ∷ cs) zero c = refl
length-set (x ∷ cs) (suc fd) c = ap suc (length-set cs fd c)

-- Another context for one descriptor, with the count adjusted.
pub set-Books :
    (cs : List FdContext) (pending pending' fd : ℕ) (c c' : FdContext)
    → Books cs pending
    → get_elem? cs fd ≡ some c
    → IsContext c'
    → c'.fd ≡ c.fd
    → pending' ≡ u64 (waiting (set cs fd c'))
    → Books (set cs fd c') pending'
set-Books cs pending pending' fd c c' v e ok same p = record {
  contexts = λ j d f. elim (Bool-cases (fd == j)) [
    | inl y ↦ (
      subst IsContext (ground (arith, get_elem?-set cs fd j c c' e)) ok,
      ground (arith, get_elem?-set cs fd j c c' e, v.contexts fd c e),
    )
    | inr n ↦ v.contexts j d (ground (arith, get_elem?-set cs fd j c c' e))
  ];
  pending_exact = p;
  sized = rw (length-set cs fd c') (v.sized);
}

pub events_at-set :
    (cs : List FdContext) (fd j : ℕ) (c c' : FdContext)
    → get_elem? cs fd ≡ some c
    → events_at (set cs fd c') j ≡ (if fd == j then c'.events else events_at cs j)
events_at-set cs fd j c c' e = ground (arith, get_elem?-set cs fd j c c' e)

pub take_more : (n : ℕ) (cs : List FdContext) → length cs ≤ n → take n cs ≡ cs
take_more zero [] h = refl
take_more zero (c ∷ cs) h = absurd (omega arith)
take_more (suc n) [] h = refl
take_more (suc n) (c ∷ cs) h = ap (◌∷◌ c) (take_more n cs (omega arith))

pub length-fresh : (from n : ℕ) → length (fresh_contexts from n) ≡ n
unfolding fresh_contexts
length-fresh from zero = refl
length-fresh from (suc n) = ap suc (length-fresh (suc from) n)

pub waiting-fresh : (from n : ℕ) → waiting (fresh_contexts from n) ≡ 0
unfolding waiting fresh_contexts fresh_context has_event
waiting-fresh from zero = refl
waiting-fresh from (suc n) = omega (arith, waiting-fresh (suc from) n)

pub fresh_at :
    (from n j : ℕ) → j < n → get_elem? (fresh_contexts from n) j ≡ some (fresh_context (from + j))
unfolding fresh_contexts
fresh_at from zero j h = absurd (omega arith)
fresh_at from (suc n) zero h = ground arith
fresh_at from (suc n) (suc j) h =
    fresh_at (suc from) n j (omega arith) ∙ ap (λ (k : ℕ). some (fresh_context k)) (omega arith)

pub get_elem?_beyond : (cs : List FdContext) (j : ℕ) → length cs ≤ j → get_elem? cs j ≡ none
get_elem?_beyond [] j h = refl
get_elem?_beyond (c ∷ cs) zero h = absurd (omega arith)
get_elem?_beyond (c ∷ cs) (suc j) h = get_elem?_beyond cs j (omega arith)

pub get_elem?_within :
    (cs : List FdContext) (j : ℕ) → j < length cs → (c : FdContext) × (get_elem? cs j ≡ some c)
get_elem?_within [] j h = absurd (omega arith)
get_elem?_within (c ∷ cs) zero h = (c, refl)
get_elem?_within (c ∷ cs) (suc j) h = get_elem?_within cs j (omega arith)

pub append_left :
    (cs ds : List FdContext) (j : ℕ) → j < length cs → get_elem? (cs ++ ds) j ≡ get_elem? cs j
append_left [] ds j h = absurd (omega arith)
append_left (c ∷ cs) ds zero h = refl
append_left (c ∷ cs) ds (suc j) h = append_left cs ds j (omega arith)

pub append_right :
    (cs ds : List FdContext) (j : ℕ)
    → length cs ≤ j
    → get_elem? (cs ++ ds) j ≡ get_elem? ds (j - length cs)
append_right [] ds j h = ap (get_elem? ds) (omega arith)
append_right (c ∷ cs) ds zero h = absurd (omega arith)
append_right (c ∷ cs) ds (suc j) h =
    append_right cs ds j (omega arith) ∙ ap (get_elem? ds) (omega arith)

pub waiting-append : (cs ds : List FdContext) → waiting (cs ++ ds) ≡ waiting cs + waiting ds
unfolding waiting
waiting-append [] ds = omega arith
waiting-append (c ∷ cs) ds = omega (arith, waiting-append cs ds)

pub waiting_at :
    (cs : List FdContext) (fd : ℕ) (c : FdContext)
    → waiting cs ≡ 0
    → get_elem? cs fd ≡ some c
    → weight c ≡ 0
unfolding waiting
waiting_at [] fd c z e = cc
waiting_at (d ∷ cs) zero c z e = ground arith
waiting_at (d ∷ cs) (suc fd) c z e = waiting_at cs fd c (omega arith) e
