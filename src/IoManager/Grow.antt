-- ===== src/IoManager/Grow.antt =====
-- How `addEvent` makes the table of contexts longer.
use mathlib.Core.List.{append-nil}
use custom_net_framework.Prelude.{
  ℕ, ◌+◌, ◌-◌, ◌*◌, ◌/◌, ◌≤◌, ◌<◌, ◌≡◌, refl, ap, sym, ◌∙◌, subst, inl, inr, some, List, ◌++◌,
  arith, ltb, get_elem?, length, Bool-cases, length-append,
}
use custom_net_framework.IoManager.Context.{FdContext, fresh_context}
use custom_net_framework.IoManager.Slots.{IsContext, fresh_context-IsContext}
use custom_net_framework.IoManager.{ensure_context, fresh_contexts}
use custom_net_framework.IoManager.Books.{
  events_at, Books, take_more, length-fresh, waiting-fresh, fresh_at, get_elem?_beyond,
  get_elem?_within, append_left, append_right, waiting-append,
}

-- A table of at least 32 contexts is kept, or gets fresh contexts at its end.
ensure_cases :
    (fd : ℕ) (cs : List FdContext)
    → 32 ≤ length cs
    → (n : ℕ) × (ensure_context fd cs ≡ cs ++ fresh_contexts (length cs) n) × (fd < length cs + n)
unfolding ensure_context
ensure_cases fd cs big = elim (Bool-cases (ltb fd (length cs))) [
  | inl y ↦ (0, unfold fresh_contexts in ground (arith, append-nil cs), ground arith)
  | inr n ↦ (fd * 3 / 2 - length cs, rw (n, take_more (fd * 3 / 2) cs (ground arith)), ground arith)
]

grown-Books :
    (cs : List FdContext) (n pending : ℕ)
    → Books cs pending
    → Books (cs ++ fresh_contexts (length cs) n) pending
grown-Books cs n pending v = record {
  contexts = λ j c e. elim (Bool-cases (ltb j (length cs))) [
    | inl y ↦ v.contexts j c (sym (append_left cs new j (ground arith)) ∙ e)
    | inr o ↦ elim (Bool-cases (ltb (j - length cs) n)) [
      | inl y ↦
          let f : fresh_context j ≡ c = ground (arith, fresh_lem j (ground arith) (ground arith)) in
          (
            subst IsContext f (fresh_context-IsContext j),
            sym (ap (λ (d : FdContext). d.fd) f) ∙ unfold fresh_context in refl,
          )
      | inr p ↦ absurd (
          ground (
            arith,
            append_right cs new j (ground arith),
            get_elem?_beyond new (j - length cs) (ground (arith, length-fresh (length cs) n)),
          ))
    ]
  ];
  pending_exact =
      ground (arith, v.pending_exact, waiting-append cs new, waiting-fresh (length cs) n);
  sized = omega (arith, v.sized, length-append cs new);
}
  where
    new : List FdContext
    new = fresh_contexts (length cs) n

    fresh_lem :
        (j : ℕ)
        → length cs ≤ j
        → j - length cs < n
        → get_elem? (cs ++ new) j ≡ some (fresh_context j)
    fresh_lem j h l =
        append_right cs new j h
        ∙ fresh_at (length cs) n (j - length cs) l
        ∙ ap (λ (k : ℕ). some (fresh_context k)) (omega arith)

pub grown-events :
    (cs : List FdContext) (n j : ℕ)
    → events_at (cs ++ fresh_contexts (length cs) n) j ≡ events_at cs j
unfolding fresh_context
grown-events cs n j = elim (Bool-cases (ltb j (length cs))) [
  | inl y ↦ ground (arith, append_left cs (fresh_contexts (length cs) n) j)
  | inr o ↦ elim (Bool-cases (ltb (j - length cs) n)) [
    | inl y ↦ ground (
      arith,
      append_right cs (fresh_contexts (length cs) n) j,
      fresh_at (length cs) n (j - length cs),
      get_elem?_beyond cs j,
    )
    | inr p ↦ ground (
      arith,
      append_right cs (fresh_contexts (length cs) n) j,
      get_elem?_beyond (fresh_contexts (length cs) n) (j - length cs),
      length-fresh (length cs) n,
      get_elem?_beyond cs j,
    )
  ]
]

-- After `ensure_context` the table has a context for the descriptor; nothing else has changed.
pub ensure_lem :
    (fd pending : ℕ) (cs : List FdContext)
    → Books cs pending
    → (c : FdContext) × (get_elem? (ensure_context fd cs) fd ≡ some c)
      × Books (ensure_context fd cs) pending
      × ((j : ℕ) → events_at (ensure_context fd cs) j ≡ events_at cs j)
ensure_lem fd pending cs v =
    let (n, e, l) = ensure_cases fd cs v.sized in
    let (c, f) = get_elem?_within (cs ++ fresh_contexts (length cs) n) fd (
      omega (arith, length-append cs (fresh_contexts (length cs) n), length-fresh (length cs) n)) in
    (
      c,
      ap (λ ds. get_elem? ds fd) e ∙ f,
      rw e (grown-Books cs n pending v),
      λ j. ap (λ ds. events_at ds j) e ∙ grown-events cs n j,
    )
