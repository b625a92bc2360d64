-- ===== src/Common/Words.antt =====
-- The `uint` of the program: 32 bits, with the wrap-around written out.
use Prim.Native.Nat.{ℕ, ◌+◌, ◌-◌, ◌%◌, ◌^◌}

abbrev pub uint_mod : ℕ
uint_mod = 2 ^ 32

abbrev pub add_uint : ℕ → ℕ → ℕ
add_uint a b = (a + b) % uint_mod

-- `-` on ℕ stops at 0, so the modulus is added first.
abbrev pub sub_uint : ℕ → ℕ → ℕ
sub_uint a b = (a + uint_mod - b) % uint_mod
