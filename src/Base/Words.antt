-- ===== src/Base/Words.antt =====
-- The widths of the program's unsigned integers: a conversion keeps the low bits.
use Prim.Native.Nat.{ℕ, ◌*◌, ◌/◌, ◌%◌, ◌^◌}

abbrev pub u8 : ℕ → ℕ
u8 byte = byte % 256

abbrev pub u16 : ℕ → ℕ
u16 word = word % 65536

abbrev pub u32 : ℕ → ℕ
u32 n = n % 4294967296

-- `uint32_t << k`, which wraps, and `>> k`.
abbrev pub shl32 : ℕ → ℕ → ℕ
shl32 x k = u32 (x * 2 ^ k)

abbrev pub shr : ℕ → ℕ → ℕ
shr x k = x / 2 ^ k
