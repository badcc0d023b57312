-- ===== src/Prelude/Words.antt =====
-- Unsigned words of the C++ types, as numbers with the wrap-around written out.
use Prim.Native.Nat.{ℕ, ◌+◌, ◌-◌, ◌*◌, ◌%◌, ◌^◌}

abbrev pub u8 : ℕ → ℕ
u8 n = n % 2 ^ 8

abbrev pub u32 : ℕ → ℕ
u32 n = n % 2 ^ 32

abbrev pub u64 : ℕ → ℕ
u64 n = n % 2 ^ 64

-- a - b on uint64_t; both are below 2 ^ 64 where the code subtracts.
abbrev pub sub64 : ℕ → ℕ → ℕ
sub64 a b = (a + 2 ^ 64 - b) % 2 ^ 64

-- seconds * 1000000000ULL and milliseconds * 1000000ULL.
abbrev pub seconds_ns : ℕ → ℕ
seconds_ns s = u64 (s * 1000000000)

abbrev pub millis_ns : ℕ → ℕ
millis_ns ms = u64 (ms * 1000000)
