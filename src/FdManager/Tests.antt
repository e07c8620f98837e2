-- ===== src/FdManager/Tests.antt =====
-- The table of a program that has made a few sockets.
use custom_net_framework.Prelude.{
  ℕ, ◌≡◌, true, false, not, ◌||◌, Option, none, some, List, ◌==◌, if◌then◌else◌, has, refl, arith,
  length, set, max_u64,
}
use custom_net_framework.FdManager.{Flags, FdCtx, get, new_ctx, empty_table}
use custom_net_framework.FdManager.Table.{ctx_at, Inv, get_lem}
use custom_net_framework.FdManager.Sample.{sockets, kernel, datas, datas-Inv}

-- Nothing happens between the locks.
abbrev idle : (ℕ → Flags) × List (Option FdCtx) → (ℕ → Flags) × List (Option FdCtx)
idle w = w

get_lem_example :
    (k' : ℕ → Flags) × (datas' : List (Option FdCtx)) × (get sockets idle kernel datas 1 true
      ≡ some ((k', datas'), ctx_at datas' 1))
    × Inv sockets k' datas'
    × (has (ctx_at datas' 1) ≡ (has (ctx_at datas 1) || true))
    × ((has (ctx_at datas 1) || not true) ≡ true → (k' ≡ kernel) × (datas' ≡ datas))
    × ((has (ctx_at datas 1) || not true) ≡ false
        → (length datas' ≡ length datas)
          × ((j : ℕ)
              → ctx_at datas' j
                ≡ (if 1 == j then some (new_ctx sockets kernel 1).1 else ctx_at datas j))
          × ((new_ctx sockets kernel 1).1.recv_timeout ≡ max_u64)
          × ((new_ctx sockets kernel 1).1.send_timeout ≡ max_u64))
get_lem_example =
    get_lem sockets idle kernel datas 1 true datas-Inv (λ v. v) (omega arith) (λ a. refl)

-- The 65th descriptor, in the table that the constructor makes.
get_overflow : get sockets idle kernel empty_table 64 true ≡ none
unfolding get empty_table
get_overflow = refl

-- Another thread makes a context for the same descriptor between the locks: it is lost.
abbrev theirs : FdCtx
theirs = record ((new_ctx sockets kernel 1).1) { recv_timeout = 5 }

get_replaces :
    get sockets (λ w. (w.0, set w.1 1 (some theirs))) kernel datas 1 true
    ≡ get sockets idle kernel datas 1 true
unfolding get
get_replaces = refl
