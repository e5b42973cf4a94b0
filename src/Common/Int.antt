-- ===== src/Common/Int.antt =====
-- Signed integers over the native numbers, their order, and the two's complement of an `i64`.
use rust_db.Common.{ℕ, ◌-◌, ◌^◌, ◌<◌, ◌≡◌, compare, Ordering, lt, gt, ltb, if◌then◌else◌, arith}

-- `negsuc n` is -(n + 1).
pub data ℤ : Type 0 where
  pos : ℕ → ℤ
  negsuc : ℕ → ℤ

-- The values of an `i64`.
abbrev pub IsI64 : ℤ → Type 0
IsI64 (pos n) = n < 2 ^ 63
IsI64 (negsuc n) = n < 2 ^ 63

-- `i64::cmp`.
abbrev pub cmp_ℤ : ℤ → ℤ → Ordering
cmp_ℤ (pos a) (pos b) = compare a b
cmp_ℤ (pos a) (negsuc b) = gt
cmp_ℤ (negsuc a) (pos b) = lt
cmp_ℤ (negsuc a) (negsuc b) = compare b a

-- The bit pattern of an `i64`, and the integer that a pattern stands for.
unfoldable pub i64_bits : ℤ → ℕ
i64_bits (pos n) = n
i64_bits (negsuc n) = 2 ^ 64 - 1 - n

unfoldable pub i64_of_bits : ℕ → ℤ
i64_of_bits w = if ltb w (2 ^ 63) then pos w else negsuc (2 ^ 64 - 1 - w)

pub i64_bits-lt : (z : ℤ) → IsI64 z → i64_bits z < 2 ^ 64
unfolding i64_bits
i64_bits-lt (pos n) h = omega arith
i64_bits-lt (negsuc n) h = omega arith

pub i64_of_bits-i64_bits : (z : ℤ) → IsI64 z → i64_of_bits (i64_bits z) ≡ z
unfolding i64_bits i64_of_bits
i64_of_bits-i64_bits (pos n) h = ground arith
i64_of_bits-i64_bits (negsuc n) h = ground arith
