-- ===== src/Prelude/Word.antt =====
-- Fixed-width unsigned arithmetic: wrap-around is written out as `% 2 ^ w`.
use Prim.Native.Nat.{ℕ, ◌+◌, ◌-◌, ◌%◌, ◌^◌, bit_and, bit_xor}

abbrev pub u16 : ℕ → ℕ
u16 n = n % 2 ^ 16

abbrev pub u32 : ℕ → ℕ
u32 n = n % 2 ^ 32

abbrev pub u64 : ℕ → ℕ
u64 n = n % 2 ^ 64

-- `a - b` on uint64_t.
abbrev pub sub64 : ℕ → ℕ → ℕ
sub64 a b = u64 (a + 2 ^ 64 - u64 b)

-- `~0ull`, and `(uint64_t)-1`.
abbrev pub max_u64 : ℕ
max_u64 = 2 ^ 64 - 1

-- `a & ~b` on 32-bit operands.
abbrev pub and_not : ℕ → ℕ → ℕ
and_not a b = bit_and a (bit_xor (2 ^ 32 - 1) b)
