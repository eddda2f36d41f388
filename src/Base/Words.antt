-- ===== src/Base/Words.antt =====
-- Arithmetic of the driver's machine words: ULONG has 32 bits and UCHAR has 8.
use Prim.Native.Nat.{ℕ, ◌+◌, ◌-◌, ◌*◌, ◌%◌, ◌^◌}

abbrev pub u32 : ℕ → ℕ
u32 n = n % 2 ^ 32

abbrev pub add32 : ℕ → ℕ → ℕ
add32 a b = (a + b) % 2 ^ 32

-- `b` is a word; `-` on ℕ stops at 0, so the modulus is added first.
abbrev pub sub32 : ℕ → ℕ → ℕ
sub32 a b = (a + 2 ^ 32 - b) % 2 ^ 32

abbrev pub mul32 : ℕ → ℕ → ℕ
mul32 a b = a * b % 2 ^ 32

abbrev pub inc8 : ℕ → ℕ
inc8 a = (a + 1) % 2 ^ 8

abbrev pub dec8 : ℕ → ℕ
dec8 a = (a + 2 ^ 8 - 1) % 2 ^ 8
