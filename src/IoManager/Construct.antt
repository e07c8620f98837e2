-- ===== src/IoManager/Construct.antt =====
-- The constructor of `IOManager`.
use custom_net_framework.Prelude.{
  ℕ, ◌^◌, ◌≤◌, ◌≡◌, refl, ap, sym, ◌∙◌, subst, inl, inr, true, none, some, [], arith, ltb,
  Bool-cases, bit_or,
}
use custom_net_framework.IoManager.Context.{FdContext}
use custom_net_framework.IoManager.Slots.{IsContext}
use custom_net_framework.IoManager.Books.{events_at, Books}
use custom_net_framework.IoManager.{add, Epoll, IoManager}
use custom_net_framework.IoManager.Context.{fresh_context}
use custom_net_framework.IoManager.Slots.{fresh_context-IsContext}
use custom_net_framework.IoManager.Books.{length-fresh, waiting-fresh, fresh_at, get_elem?_beyond}
use custom_net_framework.IoManager.Grow.{grown-events}
use custom_net_framework.IoManager.Mirror.{Inv}
use custom_net_framework.IoManager.{construct, context_resize, fresh_contexts}

pub fresh-Books : (n : ℕ) → 32 ≤ n → Books (fresh_contexts 0 n) 0
fresh-Books n big = record {
  contexts = λ j c e. elim (Bool-cases (ltb j n)) [
    | inl y ↦
        let f : fresh_context j ≡ c = ground (arith, fresh_at 0 n j (ground arith)) in
        (
          subst IsContext f (fresh_context-IsContext j),
          sym (ap (λ (d : FdContext). d.fd) f) ∙ unfold fresh_context in refl,
        )
    | inr p ↦
        absurd (
          ground
            (arith, get_elem?_beyond (fresh_contexts 0 n) j (ground (arith, length-fresh 0 n))))
  ];
  pending_exact = ground (arith, waiting-fresh 0 n);
  sized = omega (arith, length-fresh 0 n);
}

module _ (E : Epoll) where
  -- With an epoll instance that is empty, and that takes the pipe, the constructor makes a state that
  -- keeps the invariant, in which no descriptor waits for an event.
  pub construct_lem :
      (k : E.State) (pipe : ℕ)
      → ((fd : ℕ) → E.interest k fd ≡ none)
      → (E.ctl k add pipe (bit_or 1 (2 ^ 31))).1 ≡ true
      → (io : IoManager (E.State)) × (construct E k pipe ≡ some io)
        × Inv E pipe io
        × ((fd : ℕ) → events_at io.fd_contexts fd ≡ 0)
        × (io.scheduled ≡ [])
  unfolding construct context_resize
  construct_lem k pipe new done =
      let io : IoManager (E.State) = record {
        kernel = (E.ctl k add pipe (bit_or 1 (2 ^ 31))).0;
        fd_contexts = context_resize 32 [];
        pending_event_count = 0;
        scheduled = [];
      } in
      (
        io,
        ground (arith, done),
        record {
          books = fresh-Books 32 (omega arith);
          mirrors = λ j ne.
              E.ctl_done k add pipe (bit_or 1 (2 ^ 31)) j done ∙ ground (arith, ne, new j, at j);
        },
        at,
        refl,
      )
    where
      at : (fd : ℕ) → events_at (context_resize 32 []) fd ≡ 0
      at fd = grown-events [] 32 fd
