-- ===== src/Words.antt =====
-- The C integers of the module on a 64-bit host. An `int32_t` is its bit pattern, a number below
-- 2 ^ 32; a host pointer into a buffer is its offset from the buffer's start modulo 2 ^ 64, so an
-- offset below the start is a number near 2 ^ 64. Signed overflow wraps.
use wasm_nginx_module.Prelude.{
  ℕ, ◌+◌, ◌-◌, ◌*◌, ◌/◌, ◌%◌, ◌^◌, ◌<◌, ◌≡◌, Bool, List, [], ◌∷◌, arith, ltb, leb, if◌then◌else◌,
}

abbrev pub u32 : ℕ
u32 = 2 ^ 32

abbrev pub u64 : ℕ
u64 = 2 ^ 64

-- The first bit pattern of a negative `int32_t`.
abbrev pub half32 : ℕ
half32 = 2 ^ 31

unfoldable pub add32 : ℕ → ℕ → ℕ
add32 a b = (a + b) % u32

-- `a < 0` for an `int32_t`.
abbrev pub is_neg32 : ℕ → Bool
is_neg32 a = leb half32 a

-- `a < b` for two `int32_t`.
abbrev pub slt32 : ℕ → ℕ → Bool
slt32 a b = ltb ((a + half32) % u32) ((b + half32) % u32)

-- `(int64_t) a` and `(size_t) a`, which extend the sign.
unfoldable pub sext64 : ℕ → ℕ
sext64 a = if is_neg32 a then a + (u64 - u32) else a

unfoldable pub add64 : ℕ → ℕ → ℕ
add64 a b = (a + b) % u64

-- The four bytes of an `int32_t` in memory; x86-64 and ARM64 are little-endian.
unfoldable pub le32 : ℕ → List ℕ
le32 w = w % 256 ∷ w / 256 % 256 ∷ w / 65536 % 256 ∷ w / 16777216 % 256 ∷ []

unfoldable pub of_le32 : ℕ → ℕ → ℕ → ℕ → ℕ
of_le32 b0 b1 b2 b3 = b0 + 256 * b1 + 65536 * b2 + 16777216 * b3

-- A word is read back as it was written, modulo 2 ^ 32.
pub of_le32-le32 :
    (w : ℕ) → of_le32 (w % 256) (w / 256 % 256) (w / 65536 % 256) (w / 16777216 % 256) ≡ w % u32
unfolding of_le32
of_le32-le32 w = omega arith

-- Sums that do not wrap, and integers that are not negative.
pub add64_small : (a b : ℕ) → a + b < u64 → add64 a b ≡ a + b
unfolding add64
add64_small a b h = omega arith

pub add32_small : (a b : ℕ) → a + b < u32 → add32 a b ≡ a + b
unfolding add32
add32_small a b h = omega arith

pub sext64_pos : (a : ℕ) → a < half32 → sext64 a ≡ a
unfolding sext64
sext64_pos a h = ground arith
