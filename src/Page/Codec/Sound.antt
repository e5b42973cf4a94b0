-- ===== src/Page/Codec/Sound.antt =====
-- What `Page::read_slot_ranges` accepts as an array of slots: ranges that are apart.
use rust_db.Common.{
  ℕ, ◌+◌, ◌-◌, ◌≤◌, ◌<◌, ◌≡◌, ◌⊎◌, inl, inr, ltb, leb, Bool-cases, List, [], ◌∷◌, Outcome, ok, err,
  length, All, All-imp, bind-ok_inv, ◌>>◌, subst, arith,
}
use rust_db.Types.{Bytes, Range}
use rust_db.Layout.{page_size}
use rust_db.PageError.{CorruptionKind}
use rust_db.Page.Codec.Slots.{
  read_slot_ranges, read_entries, check_ranges, number_from, insert_by_start, sort_by_start,
  check_overlap,
}

-- A range that is not empty and lies inside the data area.
abbrev pub IsInside : ℕ → Range → Type 0
IsInside data_start r = (r.start < r.end) × (data_start ≤ r.start) × (r.end ≤ page_size)

abbrev pub IsApart : Range → Range → Type 0
IsApart r s = (r.end ≤ s.start) ⊎ (s.end ≤ r.start)

abbrev pub AllApart : List Range → Type 0
AllApart [] = Unit
AllApart (r ∷ rs) = All (IsApart r) rs × AllApart rs

check_ranges-IsInside :
    (data_start i : ℕ) (rs : List Range)
    → check_ranges data_start i rs ≡ ok tt
    → All (IsInside data_start) rs
unfolding check_ranges
check_ranges-IsInside data_start i [] e = tt
check_ranges-IsInside data_start i (r ∷ rs) e =
    ground (arith, check_ranges-IsInside data_start (i + 1) rs)

-- Numbered ranges.
abbrev Numbered : Type 0
Numbered = ℕ × Range

abbrev Apart : Numbered → Numbered → Type 0
Apart x y = IsApart x.1 y.1

abbrev AllNumberedApart : List Numbered → Type 0
AllNumberedApart [] = Unit
AllNumberedApart (x ∷ xs) = All (Apart x) xs × AllNumberedApart xs

abbrev IsSorted : List Numbered → Type 0
IsSorted [] = Unit
IsSorted (x ∷ xs) = All (λ y. x.1.start ≤ y.1.start) xs × IsSorted xs

All-insert_by_start :
    (P : Numbered → Type 0) (x : Numbered) (ys : List Numbered)
    → P x
    → All P ys
    → All P (insert_by_start x ys)
unfolding insert_by_start
All-insert_by_start P x [] p h = (p, tt)
All-insert_by_start P x (y ∷ ys) p h = elim (Bool-cases (leb x.1.start y.1.start)) [
  | inl first ↦ rw first (p, h)
  | inr later ↦ rw later (h.0, All-insert_by_start P x ys p h.1)
]

insert_by_start-All :
    (P : Numbered → Type 0) (x : Numbered) (ys : List Numbered)
    → All P (insert_by_start x ys)
    → P x × All P ys
unfolding insert_by_start
insert_by_start-All P x [] h = (h.0, tt)
insert_by_start-All P x (y ∷ ys) h = elim (Bool-cases (leb x.1.start y.1.start)) [
  | inl first ↦ let k = rw first at h in (k.0, k.1)
  | inr later ↦
      let k = rw later at h in let (p, rest) = insert_by_start-All P x ys k.1 in (p, (k.0, rest))
]

insert_by_start-IsSorted :
    (x : Numbered) (ys : List Numbered) → IsSorted ys → IsSorted (insert_by_start x ys)
unfolding insert_by_start
insert_by_start-IsSorted x [] h = (tt, tt)
insert_by_start-IsSorted x (y ∷ ys) h = elim (Bool-cases (leb x.1.start y.1.start)) [
  | inl first ↦
      let before : x.1.start ≤ y.1.start = ground (arith, first) in
      rw first ((before, All-imp (λ z a. omega (arith, before, a)) ys h.0), h)
  | inr later ↦
      let after : y.1.start ≤ x.1.start = ground (arith, later) in
      rw later (
        All-insert_by_start (λ z. y.1.start ≤ z.1.start) x ys after h.0,
        insert_by_start-IsSorted x ys h.1,
      )
]

sort_by_start-IsSorted : (xs : List Numbered) → IsSorted (sort_by_start xs)
unfolding sort_by_start
sort_by_start-IsSorted [] = tt
sort_by_start-IsSorted (x ∷ xs) =
    insert_by_start-IsSorted x (sort_by_start xs) (sort_by_start-IsSorted xs)

check_overlap-Apart :
    (xs : List Numbered) → IsSorted xs → check_overlap xs ≡ ok tt → AllNumberedApart xs
unfolding check_overlap
check_overlap-Apart [] s e = tt
check_overlap-Apart (x ∷ []) s e = (tt, tt)
check_overlap-Apart (x ∷ y ∷ rest) s e = elim (Bool-cases (ltb y.1.start x.1.end)) [
  | inl overlap ↦ absurd (clash (rw overlap at e))
  | inr free ↦
      let ends : x.1.end ≤ y.1.start = ground (arith, free) in
      (
        (inl ends, All-imp (λ z a. inl (omega (arith, ends, a))) rest s.1.0),
        check_overlap-Apart (y ∷ rest) s.1 (rw free at e),
      )
]
  where
    clash : err (CorruptionKind.overlapping_slots x.0 y.0) ≡ ok tt → ⊥
    clash q = cc

swap-IsApart : (r s : Range) → IsApart r s → IsApart s r
swap-IsApart r s (inl a) = inr a
swap-IsApart r s (inr a) = inl a

insert_by_start-Apart :
    (x : Numbered) (ys : List Numbered)
    → AllNumberedApart (insert_by_start x ys)
    → All (Apart x) ys × AllNumberedApart ys
unfolding insert_by_start
insert_by_start-Apart x [] h = (tt, tt)
insert_by_start-Apart x (y ∷ ys) h = elim (Bool-cases (leb x.1.start y.1.start)) [
  | inl first ↦ let k = rw first at h in (k.0, k.1)
  | inr later ↦
      let k = rw later at h in
      let (own, others) = insert_by_start-All (Apart y) x ys k.0 in
      let (apart, rest) = insert_by_start-Apart x ys k.1 in
      ((swap-IsApart y.1 x.1 own, apart), (others, rest))
]

sort_by_start-All :
    (P : Numbered → Type 0) (xs : List Numbered) → All P (sort_by_start xs) → All P xs
unfolding sort_by_start
sort_by_start-All P [] h = tt
sort_by_start-All P (x ∷ xs) h =
    let (p, rest) = insert_by_start-All P x (sort_by_start xs) h in (p, sort_by_start-All P xs rest)

sort_by_start-Apart :
    (xs : List Numbered) → AllNumberedApart (sort_by_start xs) → AllNumberedApart xs
unfolding sort_by_start
sort_by_start-Apart [] h = tt
sort_by_start-Apart (x ∷ xs) h =
    let (apart, rest) = insert_by_start-Apart x (sort_by_start xs) h in
    (sort_by_start-All (Apart x) xs apart, sort_by_start-Apart xs rest)

number_from-All :
    (P : Range → Type 0) (i : ℕ) (rs : List Range) → All (λ x. P x.1) (number_from i rs) → All P rs
number_from-All P i [] h = tt
number_from-All P i (r ∷ rs) h = (h.0, number_from-All P (i + 1) rs h.1)

number_from-Apart : (i : ℕ) (rs : List Range) → AllNumberedApart (number_from i rs) → AllApart rs
number_from-Apart i [] h = tt
number_from-Apart i (r ∷ rs) h =
    (number_from-All (IsApart r) (i + 1) rs h.0, number_from-Apart (i + 1) rs h.1)

-- Where `read_slot_ranges` accepts the entries of a slot array, each of the ranges that it
-- returns is not empty, starts after the last entry and ends within the page, and no two of them
-- overlap.
pub read_slot_ranges-AllApart :
    (count : ℕ) (bs : Bytes) (rs : List Range)
    → read_slot_ranges count bs ≡ ok rs
    → (rest : Bytes) × (read_entries {E = CorruptionKind} count bs ≡ ok (rs, rest))
      × All (IsInside (page_size - length rest)) rs
      × AllApart rs
unfolding read_slot_ranges
read_slot_ranges-AllApart count bs rs e =
    let over : Bytes → List Range → Outcome CorruptionKind (List Range) =
      λ rest ranges. check_overlap (sort_by_start (number_from 0 ranges)) >> ok ranges in
    let ((ranges, rest), more, q) =
      bind-ok_inv (λ z. check_ranges (page_size - length z.1) 0 z.0 >> over z.1 z.0) rs
        (read_entries count bs) e in
    let (_, last, inside) =
      bind-ok_inv (λ _. over rest ranges) rs (check_ranges (page_size - length rest) 0 ranges)
        more in
    let (_, done, apart) =
      bind-ok_inv (λ _. ok ranges) rs (check_overlap (sort_by_start (number_from 0 ranges))) last in
    let numbered = number_from 0 ranges in
    let sorted_apart =
      check_overlap-Apart (sort_by_start numbered) (sort_by_start-IsSorted numbered) apart in
    let same : ranges ≡ rs = cc in
    subst
      (λ l.
        (rest : Bytes) × (read_entries {E = CorruptionKind} count bs ≡ ok (l, rest))
        × All (IsInside (page_size - length rest)) l
        × AllApart l)
      same
      (
        rest,
        q,
        check_ranges-IsInside (page_size - length rest) 0 ranges inside,
        number_from-Apart 0 ranges (sort_by_start-Apart numbered sorted_apart),
      )
