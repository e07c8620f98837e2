-- ===== src/FdManager.antt =====
-- sylar/sylar/fd_manager.h and fd_manager.cpp: what the hooked system calls know of a descriptor. The
-- kernel's files are the parameter `Files`.
pub mod Table
pub mod Sample
mod Tests
use custom_net_framework.Prelude.{
  ℕ, zero, suc, ◌<◌, ◌≤◌, ◌≡◌, ◌≢◌, Bool, true, false, not, ◌&&◌, ◌||◌, Option, none, some, List,
  [], ◌∷◌, ◌==◌, ltb, if◌then◌else◌, has, max_u64, get_elem?, length, set, replicate,
}

-- A word of file status flags: O_NONBLOCK, and the other bits. All of them are set in -1.
pub record Flags : Type 0 where
  pub nonblock : Bool
  pub rest : ℕ

-- What fstat(2), fcntl(2) and ioctl_tty(2) document: `socket` is S_ISSOCK of a descriptor, unless
-- fstat fails; `flags` is F_GETFL; F_SETFL and FIONBIO yield whether they returned 0. The status
-- flags belong to the open file description, which descriptors that dup(2) has made share:
-- `same_file` tells which do.
pub record Files : Type 1 where
  pub State : Type 0
  pub socket : State → ℕ → Option Bool
  pub flags : State → ℕ → Flags
  pub same_file : State → ℕ → ℕ → Bool
  pub same_self : (k : State) (fd : ℕ) → same_file k fd fd ≡ true
  pub set_flags : State → ℕ → Flags → State × Bool
  pub set_nonblock : State → ℕ → Bool → State × Bool
  pub set_flags_done :
      (k : State) (fd : ℕ) (a : Flags) (j : ℕ)
      → (set_flags k fd a).1 ≡ true
      → (flags (set_flags k fd a).0 j).nonblock
        ≡ (if same_file k fd j then a.nonblock else (flags k j).nonblock)
  pub set_nonblock_done :
      (k : State) (fd : ℕ) (b : Bool) (j : ℕ)
      → (set_nonblock k fd b).1 ≡ true
      → (flags (set_nonblock k fd b).0 j).nonblock
        ≡ (if same_file k fd j then b else (flags k j).nonblock)

-- `FdCtx`.
pub record FdCtx : Type 0 where
  pub is_init : Bool
  pub is_socket : Bool
  pub sys_nonblock : Bool
  pub user_nonblock : Bool
  pub is_closed : Bool
  pub fd : ℕ
  pub recv_timeout : ℕ
  pub send_timeout : ℕ

-- `SO_RCVTIMEO` and `SO_SNDTIMEO`.
pub data Direction : Type 0 where
  receive send : Direction

-- `FdCtx::setTimeout`.
pub set_timeout : FdCtx → Direction → ℕ → FdCtx
set_timeout c receive v = record c { recv_timeout = v }
set_timeout c send v = record c { send_timeout = v }

-- `FdCtx::getTimeout`.
unfoldable pub get_timeout : FdCtx → Direction → ℕ
get_timeout c receive = c.recv_timeout
get_timeout c send = c.send_timeout

-- The table after the constructor of `FdManager`.
pub empty_table : List (Option FdCtx)
empty_table = replicate 64 none

-- `FdManager::del`.
pub del : List (Option FdCtx) → ℕ → List (Option FdCtx)
del datas fd = if ltb fd (length datas) then set datas fd none else datas

module _ (F : Files) where
  -- `FdCtx::init`: the kernel's state, the object and the result.
  pub init : F.State → FdCtx → (F.State × FdCtx) × Bool
  init k c =
      let stat = F.socket k c.fd in
      let is_socket : Bool = elim stat [ none ↦ false | some b ↦ b ] in
      let flags = F.flags k c.fd in
      if c.is_init then ((k, c), true) else (
        (
          if is_socket && not flags.nonblock
              then (F.set_flags k c.fd (record flags { nonblock = true })).0
              else k,
          record {
            is_init = has stat;
            is_socket = is_socket;
            sys_nonblock = is_socket;
            user_nonblock = false;
            is_closed = false;
            fd = c.fd;
            recv_timeout = max_u64;
            send_timeout = max_u64;
          },
        ),
        has stat,
      )

  -- `FdCtx::FdCtx`.
  pub new_ctx : F.State → ℕ → F.State × FdCtx
  unfolding init
  new_ctx k fd =
      (init k (record {
        is_init = false;
        is_socket = false;
        sys_nonblock = false;
        user_nonblock = false;
        is_closed = false;
        fd = fd;
        recv_timeout = max_u64;
        send_timeout = max_u64;
      })).0

  -- `FdManager::get`: the kernel's state, the table and the pointer that it returns. `between` is
  -- what other threads do after it has read under the read lock and before it writes under the write
  -- lock. The assignment to an element that the vector does not have is `none`.
  pub get :
      (F.State × List (Option FdCtx) → F.State × List (Option FdCtx))
      → F.State
      → List (Option FdCtx)
      → ℕ
      → Bool
      → Option ((F.State × List (Option FdCtx)) × Option FdCtx)
  unfolding new_ctx
  get between k datas fd auto_create =
      let found : Option FdCtx = elim (get_elem? datas fd) [ none ↦ none | some ctx ↦ ctx ] in
      let w = between (k, datas) in
      let r = new_ctx w.0 fd in
      if has found || not auto_create
      then some ((k, datas), found)
      else if ltb fd (length w.1)
      then some ((r.0, set w.1 fd (some r.1)), some r.1)
      else none
