-- ===== src/Hook/Status.antt =====
-- What a program sees of O_NONBLOCK through the hooks, and what the kernel has.
use custom_net_framework.Prelude.{
  ℕ, ◌<◌, ◌≡◌, ◌↔◌, ◌⊎◌, sym, Bool, true, false, Option, some, List, ◌==◌, if◌then◌else◌, set,
  arith, refl, ◌∙◌, inl, inr, Bool-cases, Option-cases, get_elem?, length,
}
use custom_net_framework.FdManager.{Files, FdCtx}
use custom_net_framework.FdManager.{Flags}
use custom_net_framework.FdManager.Table.{ctx_at, ctx_at-set, within, Inv}
use custom_net_framework.Hook.{is_managed, set_status, get_status, ioctl_nonblock}

-- A context in the table is below its length.
pub ctx_within :
    (ds : List (Option FdCtx)) (fd : ℕ) (c : FdCtx) → ctx_at ds fd ≡ some c → fd < length ds
ctx_within ds fd c e = elim (Option-cases (get_elem? ds fd)) [
  | inl n ↦ absurd (ground (arith, n, e))
  | inr (d, y) ↦ ground (arith, y, within ds fd)
]

module _ (F : Files) where
  -- Another value of the user's flag, with flags in the kernel that agree with the table.
  user-Inv :
      (k k' : F.State) (datas : List (Option FdCtx)) (fd : ℕ) (c : FdCtx) (b : Bool)
      → Inv F k datas
      → ctx_at datas fd ≡ some c
      → ((j : ℕ) (d : FdCtx)
          → ctx_at datas j ≡ some d
          → d.is_socket ≡ true
          → (F.flags k' j).nonblock ≡ true)
      → Inv F k' (set datas fd (some (record c { user_nonblock = b })))
  user-Inv k k' datas fd c b v e flags = record {
    own_fd = λ j d f. elim (Bool-cases (fd == j)) [
      | inl y ↦ ground (arith, y, f, at j, v.own_fd fd c e)
      | inr n ↦ v.own_fd j d (ground (arith, n, f, at j))
    ];
    marked = λ j d f. elim (Bool-cases (fd == j)) [
      | inl y ↦ ground (arith, y, f, at j, v.marked fd c e)
      | inr n ↦ v.marked j d (ground (arith, n, f, at j))
    ];
    nonblocking = λ j d f s. elim (Bool-cases (fd == j)) [
      | inl y ↦ flags j c (ground (arith, y, e)) (ground (arith, y, f, s, at j))
      | inr n ↦ flags j d (ground (arith, n, f, at j)) s
    ];
  }
    where
      at :
          (j : ℕ)
          → ctx_at (set datas fd (some (record c { user_nonblock = b }))) j
            ≡ (if fd == j then some (record c { user_nonblock = b }) else ctx_at datas j)
      at j = ctx_at-set datas fd j (some (record c { user_nonblock = b })) (ctx_within datas fd c e)

  -- The same table, whose sockets do not block.
  kept-Inv :
      (k k' : F.State) (datas : List (Option FdCtx))
      → Inv F k datas
      → ((j : ℕ) (c : FdCtx)
          → ctx_at datas j ≡ some c
          → c.is_socket ≡ true
          → (F.flags k' j).nonblock ≡ true)
      → Inv F k' datas
  kept-Inv k k' datas v same = record {
    own_fd = v.own_fd;
    marked = v.marked;
    nonblocking = λ j c e s. same j c e s;
  }

  moved :
      (r : (F.State × List (Option FdCtx)) × Bool) (k : F.State) (datas : List (Option FdCtx))
      → r.0.0 ≡ k
      → r.0.1 ≡ datas
      → Inv F k datas
      → Inv F r.0.0 r.0.1
  moved r k datas e f v = rw (e, f) v

  -- No socket in the table shares the open file description of this descriptor.
  unfoldable pub IsAlone : F.State → List (Option FdCtx) → ℕ → Type 0
  IsAlone k datas fd =
      (j : ℕ) (c : FdCtx)
      → ctx_at datas j ≡ some c
      → c.is_socket ≡ true
      → F.same_file k fd j ≡ false

  -- F_SETFL passed on for a descriptor that is not managed.
  passed-Inv :
      (k : F.State) (datas : List (Option FdCtx)) (fd : ℕ) (arg : Flags)
      → Inv F k datas
      → (F.set_flags k fd arg).1 ≡ true
      → Inv F (F.set_flags k fd arg).0 datas ↔ ((arg.nonblock ≡ true) ⊎ IsAlone k datas fd)
  unfolding IsAlone
  passed-Inv k datas fd arg v d = (
    λ w. elim (Bool-cases (arg.nonblock)) [
      | inl y ↦ inl y
      | inr n ↦ inr (λ j c e s. elim (Bool-cases (F.same_file k fd j)) [
        | inl o ↦
            absurd (ground (arith, n, o, F.set_flags_done k fd arg j d, w.nonblocking j c e s))
        | inr o ↦ o
      ])
    ],
    λ o. kept-Inv k (F.set_flags k fd arg).0 datas v (stays o),
  )
    where
      stays :
          ((arg.nonblock ≡ true) ⊎ IsAlone k datas fd)
          → (j : ℕ) (c : FdCtx) → ctx_at datas j ≡ some c
          → c.is_socket ≡ true
          → (F.flags (F.set_flags k fd arg).0 j).nonblock ≡ true
      stays (inl y) j c e s =
          ground (arith, y, F.set_flags_done k fd arg j d, v.nonblocking j c e s)
      stays (inr alone) j c e s =
          ground (arith, alone j c e s, F.set_flags_done k fd arg j d, v.nonblocking j c e s)

  -- In a state that keeps the invariant, where no context is closed: after a successful
  -- `fcntl(F_SETFL)`, `fcntl(F_GETFL)` returns the O_NONBLOCK that was set, for any descriptor.
  -- The kernel has O_NONBLOCK on a managed socket, and on any other descriptor what was set. The
  -- invariant, that sockets in the table do not block in the kernel, is kept just if the descriptor
  -- is managed, or O_NONBLOCK was set, or no socket in the table shares its open file description
  -- as one that dup(2) has made does.
  pub status_roundtrip :
      (k : F.State) (datas : List (Option FdCtx)) (fd : ℕ) (arg : Flags)
      → let r = set_status F k datas fd arg in
        Inv F k datas
        → ((j : ℕ) (c : FdCtx) → ctx_at datas j ≡ some c → c.is_closed ≡ false)
        → r.1 ≡ true
        → ((get_status F r.0.0 r.0.1 fd).nonblock ≡ arg.nonblock)
          × ((F.flags r.0.0 fd).nonblock
              ≡ (if is_managed (ctx_at datas fd) then true else arg.nonblock))
          × (Inv F r.0.0 r.0.1 ↔ (
              (is_managed (ctx_at datas fd) ≡ true) ⊎ ((arg.nonblock ≡ true) ⊎ IsAlone k datas fd)))
  unfolding set_status get_status
  status_roundtrip k datas fd arg v open_fds done =
      elim (Bool-cases (is_managed (ctx_at datas fd))) [
        | inr n ↦
            let d : (F.set_flags k fd arg).1 ≡ true = ground (arith, n, done) in
            let (there, back) = passed-Inv k datas fd arg v d in
            let kept : (F.set_flags k fd arg).0 ≡ (set_status F k datas fd arg).0.0 =
              ground (arith, n) in
            let same : datas ≡ (set_status F k datas fd arg).0.1 = ground (arith, n) in
            (
              ground (arith, n, F.set_flags_done k fd arg fd d, F.same_self k fd),
              ground (arith, n, F.set_flags_done k fd arg fd d, F.same_self k fd),
              (
                λ w. inr (
                    there (
                      moved (((F.set_flags k fd arg).0, datas), true)
                        (set_status F k datas fd arg).0.0 (set_status F k datas fd arg).0.1 kept
                        same w)),
                λ o. elim o [
                  | inl y ↦ absurd (ground (arith, n, y))
                  | inr q ↦
                      moved (set_status F k datas fd arg) (F.set_flags k fd arg).0 datas (sym kept)
                        (sym same) (back q)
                ],
              ),
            )
        | inl b ↦ elim (Option-cases (ctx_at datas fd)) [
          | inl none_there ↦ absurd (ground (arith, b, none_there))
          | inr (c, y) ↦
              let s : c.is_socket ≡ true = ground (arith, b, y) in
              let on : c.sys_nonblock ≡ true = v.marked fd c y ∙ s in
              let arg' = record arg { nonblock = c.sys_nonblock } in
              let d : (F.set_flags k fd arg').1 ≡ true = ground (arith, y, b, done) in
              let new_at =
                ctx_at-set datas fd fd (some (record c { user_nonblock = arg.nonblock }))
                  (ctx_within datas fd c y) in
              (
                ground (arith, y, b, new_at),
                ground (arith, y, b, on, F.set_flags_done k fd arg' fd d, F.same_self k fd),
                (
                  λ _. inl b,
                  λ _.
                      moved (set_status F k datas fd arg) (F.set_flags k fd arg').0
                        (set datas fd (some (record c { user_nonblock = arg.nonblock })))
                        (ground (arith, y, b)) (ground (arith, y, b))
                        (user-Inv k (F.set_flags k fd arg').0 datas fd c arg.nonblock v y
                          (λ j x e z.
                            ground
                              (arith, on, F.set_flags_done k fd arg' j d, v.nonblocking j x e z))),
                ),
              )
        ]
      ]

  -- In a state that keeps the invariant, after a successful `ioctl(FIONBIO)` on a managed socket,
  -- `fcntl(F_GETFL)` returns the O_NONBLOCK that was set, and the kernel has it too: the invariant
  -- is kept just if it was set.
  pub ioctl_nonblock_lem :
      (k : F.State) (datas : List (Option FdCtx)) (fd : ℕ) (c : FdCtx) (arg : Bool)
      → let r = ioctl_nonblock F k datas fd arg in
        Inv F k datas
        → ctx_at datas fd ≡ some c
        → is_managed (some c) ≡ true
        → r.1 ≡ true
        → ((get_status F r.0.0 r.0.1 fd).nonblock ≡ arg)
          × ((F.flags r.0.0 fd).nonblock ≡ arg)
          × (Inv F r.0.0 r.0.1 ↔ (arg ≡ true))
  unfolding ioctl_nonblock get_status
  ioctl_nonblock_lem k datas fd c arg v y s done = (
    ground (arith, y, s, at fd),
    ground (arith, at_k fd, F.same_self k fd),
    (
      λ w. ground (
        arith,
        at_k fd,
        F.same_self k fd,
        w.nonblocking fd (record c { user_nonblock = arg }) (ground (arith, y, s, at fd))
            (ground (arith, s)),
      ),
      λ t.
          moved (ioctl_nonblock F k datas fd arg) r.0
            (set datas fd (some (record c { user_nonblock = arg }))) refl (ground (arith, y, s))
            (user-Inv k r.0 datas fd c arg v y
              (λ j x e z. ground (arith, t, at_k j, v.nonblocking j x e z))),
    ),
  )
    where
      r : F.State × Bool
      r = F.set_nonblock k fd arg

      at_k :
          (j : ℕ)
          → (F.flags (F.set_nonblock k fd arg).0 j).nonblock
            ≡ (if F.same_file k fd j then arg else (F.flags k j).nonblock)
      at_k j = F.set_nonblock_done k fd arg j done

      at :
          (j : ℕ)
          → ctx_at (set datas fd (some (record c { user_nonblock = arg }))) j
            ≡ (if fd == j then some (record c { user_nonblock = arg }) else ctx_at datas j)
      at j =
          ctx_at-set datas fd j (some (record c { user_nonblock = arg })) (ctx_within datas fd c y)
