-- ===== src/IoManager/Kernel.antt =====
-- The kernel's epoll, a parameter of the model.
use custom_net_framework.Prelude.{
  ℕ, ◌≡◌, Bool, true, false, Option, none, some, ◌==◌, if◌then◌else◌,
}

-- The operations of `epoll_ctl`.
pub data Op : Type 0 where
  add mod_op del : Op

abbrev pub requested : Op → ℕ → Option ℕ
requested add mask = some mask
requested mod_op mask = some mask
requested del mask = none

-- epoll, as epoll_ctl(2) documents it: `ctl` is one call, and yields whether it returned 0;
-- `interest` is the mask that is registered for a descriptor.
pub record Epoll : Type 1 where
  pub State : Type 0
  pub ctl : State → Op → ℕ → ℕ → State × Bool
  pub interest : State → ℕ → Option ℕ
  pub ctl_failed :
      (k : State) (op : Op) (fd mask j : ℕ)
      → (ctl k op fd mask).1 ≡ false
      → interest (ctl k op fd mask).0 j ≡ interest k j
  pub ctl_done :
      (k : State) (op : Op) (fd mask j : ℕ)
      → (ctl k op fd mask).1 ≡ true
      → interest (ctl k op fd mask).0 j ≡ (if fd == j then requested op mask else interest k j)
