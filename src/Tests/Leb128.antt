-- ===== src/Tests/Leb128.antt =====
-- A varint of seven bits a byte, in ten bytes at most, which satisfies what `VarInt` asks.
use rust_db.Common.{
  ℕ, zero, suc, ◌+◌, ◌-◌, ◌*◌, ◌/◌, ◌%◌, ◌≤◌, ◌≡◌, refl, ltb, if◌then◌else◌, false, [], ◌∷◌, ◌++◌,
  Outcome, ok, err, ◌>>=◌, length, Bool-cases, inl, inr, arith,
}
use rust_db.Types.{Bytes, IoError, unexpected_eof}
use rust_db.Schema.Values.{VarInt}

unfoldable pub groups : ℕ → ℕ → Bytes
groups zero n = n ∷ []
groups (suc f) n = if ltb n 128 then n ∷ [] else (n % 128 + 128) ∷ groups f (n / 128)

unfoldable pub read_groups : ℕ → Bytes → Outcome IoError (ℕ × Bytes)
read_groups f [] = err unexpected_eof
read_groups zero (b ∷ bs) = ok (b, bs)
read_groups (suc f) (b ∷ bs) =
    let rest = read_groups f bs in
    if ltb b 128 then ok (b, bs) else (rest >>= λ p. ok (b - 128 + 128 * p.0, p.1))

pub read_groups-groups :
    (f n : ℕ) (rest : Bytes) → read_groups f (groups f n ++ rest) ≡ ok (n, rest)
unfolding groups read_groups
read_groups-groups zero n rest = refl
read_groups-groups (suc f) n rest = elim (Bool-cases (ltb n 128)) [
  | inl small ↦ rw (small, small)
  | inr large ↦
      let high : ltb (n % 128 + 128) 128 ≡ false = ground arith in
      let back : n % 128 + 128 - 128 + 128 * (n / 128) ≡ n = omega arith in
      rw (large, high, read_groups-groups f (n / 128) rest, back)
]

pub groups_some : (f n : ℕ) → 1 ≤ length (groups f n)
unfolding groups
groups_some zero n = omega arith
groups_some (suc f) n = ground arith

instance unfoldable pub leb128 : VarInt
unfolding groups read_groups
leb128 = record {
  encode_var = groups 9;
  read_varint = read_groups 9;
  required_space = λ n. length (groups 9 n);
  length-encode_var = λ n h. refl;
  read_varint-encode_var = λ n rest h. read_groups-groups 9 n rest;
  required_space_pos = groups_some 9;
}
