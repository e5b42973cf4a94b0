-- ===== src/Common/Bytes.antt =====
-- Bytes as numbers below 256: the big-endian encoding of unsigned integers, `read_exact` on a
-- byte slice, and the UTF-8 check of `String::from_utf8`.
use rust_db.Common.{
  ℕ, zero, suc, ◌+◌, ◌*◌, ◌/◌, ◌%◌, ◌^◌, ◌<◌, ◌≡◌, refl, ap, List, [], ◌∷◌, ◌++◌, Option, none,
  some, length, All, arith,
}

abbrev pub IsByte : ℕ → Type 0
IsByte b = b < 256

-- `to_be_bytes` of an integer of `k` bytes.
unfoldable pub to_be : ℕ → ℕ → List ℕ
to_be zero n = []
to_be (suc k) n = n / 256 ^ k % 256 ∷ to_be k n

-- `from_be_bytes`.
unfoldable pub from_be_acc : ℕ → List ℕ → ℕ
from_be_acc acc [] = acc
from_be_acc acc (b ∷ bs) = from_be_acc (acc * 256 + b) bs

unfoldable pub from_be : List ℕ → ℕ
unfolding from_be_acc
from_be bs = from_be_acc 0 bs

pub length-to_be : (k n : ℕ) → length (to_be k n) ≡ k
unfolding to_be
length-to_be zero n = refl
length-to_be (suc k) n = ap suc (length-to_be k n)

pub to_be-IsByte : (k n : ℕ) → All IsByte (to_be k n)
unfolding to_be
to_be-IsByte zero n = tt
to_be-IsByte (suc k) n = (omega arith, to_be-IsByte k n)

-- `read_exact` of `k` bytes: `none` is `UnexpectedEof`.
unfoldable pub read_exact : ℕ → List ℕ → Option (List ℕ × List ℕ)
read_exact zero bs = some ([], bs)
read_exact (suc k) [] = none
read_exact (suc k) (b ∷ bs) = elim (read_exact k bs) [
  | none ↦ none
  | some (front, rest) ↦ some (b ∷ front, rest)
]

pub read_exact-append : (bs rest : List ℕ) → read_exact (length bs) (bs ++ rest) ≡ some (bs, rest)
unfolding read_exact
read_exact-append [] rest = refl
read_exact-append (b ∷ bs) rest = ground (arith, read_exact-append bs rest)
