-- ===== src/FdManager/Sample.antt =====
-- Files whose flags are a function, where every descriptor is a socket.
use custom_net_framework.Prelude.{
  ℕ, zero, suc, ◌≡◌, true, false, Option, none, some, List, [], ◌∷◌, ◌==◌, if◌then◌else◌, max_u64,
  refl, arith,
}
use custom_net_framework.FdManager.{Flags, Files, FdCtx}
use custom_net_framework.FdManager.Table.{ctx_at, Inv}

-- A call that sets the flags of one descriptor.
abbrev pub with_flags : (ℕ → Flags) → ℕ → Flags → ℕ → Flags
with_flags k fd a j = if fd == j then a else k j

pub with_flags_nonblock :
    (k : ℕ → Flags) (fd : ℕ) (a : Flags) (j : ℕ)
    → (with_flags k fd a j).nonblock ≡ (if fd == j then a.nonblock else (k j).nonblock)
with_flags_nonblock k fd a j = ground arith

pub same_number : (fd : ℕ) → (fd == fd) ≡ true
same_number fd = ground arith

abbrev pub sockets : Files
sockets = record {
  State = ℕ → Flags;
  socket = λ k fd. some true;
  flags = λ k fd. k fd;
  same_file = λ k fd j. fd == j;
  same_self = λ k fd. same_number fd;
  set_flags = λ k fd a. (with_flags k fd a, true);
  set_nonblock = λ k fd b. (with_flags k fd (record (k fd) { nonblock = b }), true);
  set_flags_done = λ k fd a j e. with_flags_nonblock k fd a j;
  set_nonblock_done = λ k fd b j e. with_flags_nonblock k fd (record (k fd) { nonblock = b }) j;
}

-- All descriptors do not block, and the table has a context for the first.
abbrev pub kernel : ℕ → Flags
kernel fd = record { nonblock = true; rest = 0 }

abbrev pub first_ctx : FdCtx
first_ctx = record {
  is_init = true;
  is_socket = true;
  sys_nonblock = true;
  user_nonblock = false;
  is_closed = false;
  fd = 0;
  recv_timeout = max_u64;
  send_timeout = max_u64;
}

abbrev pub datas : List (Option FdCtx)
datas = some first_ctx ∷ none ∷ none ∷ []

only_first : (j : ℕ) (c : FdCtx) → ctx_at datas j ≡ some c → (j ≡ 0) × (first_ctx ≡ c)
only_first zero c e = (refl, ground (arith, e))
only_first (suc zero) c e = cc
only_first (suc (suc zero)) c e = cc
only_first (suc (suc (suc j))) c e = cc

pub datas-Inv : Inv sockets kernel datas
datas-Inv = record {
  own_fd = λ j c e. ground (arith, only_first j c e);
  marked = λ j c e. ground (arith, only_first j c e);
  nonblocking = λ j c e s. refl;
}

pub open_fds : (j : ℕ) (c : FdCtx) → ctx_at datas j ≡ some c → c.is_closed ≡ false
open_fds j c e = ground (arith, only_first j c e)
