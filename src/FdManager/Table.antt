-- ===== src/FdManager/Table.antt =====
-- `FdManager`: its table and the files of the kernel.
use custom_net_framework.Prelude.{
  ℕ, zero, suc, ◌<◌, ◌≡◌, ◌↔◌, Bool, true, false, not, ◌&&◌, ◌||◌, Option, none, some, List, [],
  ◌∷◌, ◌==◌, ltb, if◌then◌else◌, has, get_elem?, length, set, arith, refl, ap, inl, inr, Bool-cases,
  max_u64,
}
use custom_net_framework.FdManager.{Flags, Files, FdCtx, del, init, new_ctx, get}

-- The context of a descriptor.
abbrev pub ctx_at : List (Option FdCtx) → ℕ → Option FdCtx
ctx_at datas fd = elim (get_elem? datas fd) [ none ↦ none | some ctx ↦ ctx ]

pub get_elem?-set :
    (ds : List (Option FdCtx)) (fd j : ℕ) (d : Option FdCtx)
    → fd < length ds
    → get_elem? (set ds fd d) j ≡ (if fd == j then some d else get_elem? ds j)
get_elem?-set [] fd j d l = absurd (omega arith)
get_elem?-set (x ∷ ds) zero zero d l = refl
get_elem?-set (x ∷ ds) zero (suc j) d l = ground arith
get_elem?-set (x ∷ ds) (suc fd) zero d l = ground arith
get_elem?-set (x ∷ ds) (suc fd) (suc j) d l = ground (arith, get_elem?-set ds fd j d (omega arith))

pub length-set :
    (ds : List (Option FdCtx)) (fd : ℕ) (d : Option FdCtx) → length (set ds fd d) ≡ length ds
length-set [] fd d = refl
length-set (x ∷ ds) zero d = refl
length-set (x ∷ ds) (suc fd) d = ap suc (length-set ds fd d)

pub within : (ds : List (Option FdCtx)) (fd : ℕ) → (has (get_elem? ds fd) ≡ true) ↔ (fd < length ds)
within [] fd = ground arith
within (x ∷ ds) zero = ground arith
within (x ∷ ds) (suc fd) = ground (arith, within ds fd)

pub ctx_at-set :
    (ds : List (Option FdCtx)) (fd j : ℕ) (d : Option FdCtx)
    → fd < length ds
    → ctx_at (set ds fd d) j ≡ (if fd == j then d else ctx_at ds j)
ctx_at-set ds fd j d l = ground (arith, get_elem?-set ds fd j d l)

-- `del` forgets one descriptor.
pub ctx_at-del :
    (ds : List (Option FdCtx)) (fd j : ℕ)
    → ctx_at (del ds fd) j ≡ (if fd == j then none else ctx_at ds j)
unfolding del
ctx_at-del ds fd j = elim (Bool-cases (ltb fd (length ds))) [
  | inl y ↦ ground (arith, y, ctx_at-set ds fd j none (ground arith))
  | inr n ↦ elim (Bool-cases (fd == j)) [
    | inl e ↦ ground (arith, n, within ds j, e)
    | inr ne ↦ ground (arith, n, ne)
  ]
]

module _ (F : Files) where
  -- The context of a socket says that the kernel does not block on it, and the kernel does not.
  pub record Inv (k : F.State) (datas : List (Option FdCtx)) : Type 0 where
    pub own_fd : (j : ℕ) (c : FdCtx) → ctx_at datas j ≡ some c → c.fd ≡ j
    pub marked : (j : ℕ) (c : FdCtx) → ctx_at datas j ≡ some c → c.sys_nonblock ≡ c.is_socket
    pub nonblocking :
        (j : ℕ) (c : FdCtx)
        → ctx_at datas j ≡ some c
        → c.is_socket ≡ true
        → (F.flags k j).nonblock ≡ true

  -- A new context, for a descriptor whose flags can be set.
  new_ctx_lem :
      (k : F.State) (fd : ℕ)
      → ((a : Flags) → (F.set_flags k fd a).1 ≡ true)
      → ((new_ctx F k fd).1.fd ≡ fd)
        × ((new_ctx F k fd).1.sys_nonblock ≡ (new_ctx F k fd).1.is_socket)
        × ((new_ctx F k fd).1.is_socket ≡ true → (F.flags (new_ctx F k fd).0 fd).nonblock ≡ true)
        × ((j : ℕ) → (F.flags k j).nonblock ≡ true → (F.flags (new_ctx F k fd).0 j).nonblock ≡ true)
  unfolding new_ctx init
  new_ctx_lem k fd sets =
      elim (Bool-cases
        ((elim (F.socket k fd) [ none ↦ false | some b ↦ b ]) && not (F.flags k fd).nonblock)) [
          | inl y ↦ (
            refl,
            refl,
            λ s. ground (arith, y, done fd, F.same_self k fd),
            λ j on. ground (arith, y, on, done j),
          )
          | inr n ↦ (refl, refl, λ s. ground (arith, n, s), λ j on. ground (arith, n, on))
        ]
    where
      done :
          (j : ℕ)
          → (F.flags (F.set_flags k fd (record (F.flags k fd) { nonblock = true })).0 j).nonblock
            ≡ (if F.same_file k fd j then true else (F.flags k j).nonblock)
      done j =
          F.set_flags_done k fd (record (F.flags k fd) { nonblock = true }) j
            (sets (record (F.flags k fd) { nonblock = true }))

  -- A table that has one context more.
  added-Inv :
      (k : F.State) (datas : List (Option FdCtx)) (fd : ℕ)
      → Inv k datas
      → fd < length datas
      → ((a : Flags) → (F.set_flags k fd a).1 ≡ true)
      → let r = new_ctx F k fd in Inv r.0 (set datas fd (some r.1))
  added-Inv k datas fd v l sets = record {
    own_fd = λ j c e. elim (Bool-cases (fd == j)) [
      | inl y ↦ ground (arith, y, e, at j, facts.0)
      | inr n ↦ v.own_fd j c (ground (arith, n, e, at j))
    ];
    marked = λ j c e. elim (Bool-cases (fd == j)) [
      | inl y ↦ ground (arith, y, e, at j, facts.1)
      | inr n ↦ v.marked j c (ground (arith, n, e, at j))
    ];
    nonblocking = λ j c e s. elim (Bool-cases (fd == j)) [
      | inl y ↦ ground (arith, y, e, s, at j, facts.2)
      | inr n ↦ facts.3 j (v.nonblocking j c (ground (arith, n, e, at j)) s)
    ];
  }
    where
      at :
          (j : ℕ)
          → ctx_at (set datas fd (some (new_ctx F k fd).1)) j
            ≡ (if fd == j then some (new_ctx F k fd).1 else ctx_at datas j)
      at j = ctx_at-set datas fd j (some (new_ctx F k fd).1) l

      facts :
          ((new_ctx F k fd).1.fd ≡ fd)
          × ((new_ctx F k fd).1.sys_nonblock ≡ (new_ctx F k fd).1.is_socket)
          × ((new_ctx F k fd).1.is_socket ≡ true → (F.flags (new_ctx F k fd).0 fd).nonblock ≡ true)
          × ((j : ℕ)
              → (F.flags k j).nonblock ≡ true
              → (F.flags (new_ctx F k fd).0 j).nonblock ≡ true)
      facts = new_ctx_lem k fd sets

  -- In a state that keeps the invariant, for a descriptor whose flags can be set, whatever other
  -- threads do between the two locks of `get`, if they keep the invariant and leave the table long
  -- enough: `get` keeps the invariant, so a socket in the table does not block. It returns what the
  -- table then has for the descriptor, which is a context if there was one or it was asked to
  -- create one. If there was one, or none is to be created, nothing changes. Otherwise the
  -- descriptor gets a new context with no timeouts, in place of any that another thread has made for
  -- it between the locks, and what the table then had for the other descriptors stays.
  pub get_lem :
      (between : F.State × List (Option FdCtx) → F.State × List (Option FdCtx)) (k : F.State)
      (datas : List (Option FdCtx)) (fd : ℕ) (auto_create : Bool)
      → let w = between (k, datas) in
        Inv k datas
        → (Inv k datas → Inv w.0 w.1)
        → fd < length w.1
        → ((a : Flags) → (F.set_flags w.0 fd a).1 ≡ true)
        → (k' : F.State) × (datas' : List (Option FdCtx)) × (get F between k datas fd auto_create
            ≡ some ((k', datas'), ctx_at datas' fd))
          × Inv k' datas'
          × (has (ctx_at datas' fd) ≡ (has (ctx_at datas fd) || auto_create))
          × ((has (ctx_at datas fd) || not auto_create) ≡ true → (k' ≡ k) × (datas' ≡ datas))
          × ((has (ctx_at datas fd) || not auto_create) ≡ false
              → (length datas' ≡ length w.1)
                × ((j : ℕ)
                    → ctx_at datas' j
                      ≡ (if fd == j then some (new_ctx F w.0 fd).1 else ctx_at w.1 j))
                × ((new_ctx F w.0 fd).1.recv_timeout ≡ max_u64)
                × ((new_ctx F w.0 fd).1.send_timeout ≡ max_u64))
  unfolding get new_ctx init
  get_lem between k datas fd auto_create v keeps l sets =
      elim (Bool-cases (has (ctx_at datas fd) || not auto_create)) [
        | inl p ↦ (
          k,
          datas,
          ground (arith, p),
          v,
          ground (arith, p),
          λ _. (refl, refl),
          λ q. ground (arith, p, q),
        )
        | inr q ↦
            let w = between (k, datas) in
            let r = new_ctx F w.0 fd in
            (
              r.0,
              set w.1 fd (some r.1),
              ground (arith, q, l, ctx_at-set w.1 fd fd (some r.1) l),
              added-Inv w.0 w.1 fd (keeps v) l sets,
              ground (arith, q, ctx_at-set w.1 fd fd (some r.1) l),
              λ p. ground (arith, p, q),
              λ _.
                  (length-set w.1 fd (some r.1), λ j. ctx_at-set w.1 fd j (some r.1) l, refl, refl),
            )
      ]
