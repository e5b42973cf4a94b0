-- ===== src/Page/Invariants/Decides.antt =====
-- `check_invariants` accepts exactly the valid pages.
use rust_db.Common.{
  ℕ, ◌+◌, ◌≤◌, ◌≡◌, ◌↔◌, refl, ltb, leb, ◌==◌, true, false, List, [], ◌∷◌, ok, length, All, All-imp,
  Option, none, some, Ordering, lt, arith,
}
use rust_db.Common.Order.{◌≺◌, is_ge}
use rust_db.Common.Sorted.{IsAscending}
use rust_db.Layout.{page_size, max_leaf_entry_size, max_internal_entry_size}
use rust_db.Schema.Values.{VarInt, RowValue}
use rust_db.Schema.Key.{Key, key_ord}
use rust_db.Schema.Row.{Row, fields_key, key_of, leaf_entry_size, internal_entry_size}
use rust_db.Schema.Validate.{IsEntry}
use rust_db.Page.{Page, PageBody, leaf, internal, meta, free, used_size}
use rust_db.Page.Invariants.{
  record_key, is_not_after, check_records, check_key_sizes, check_key_order, check_body,
  check_invariants, debug_check, IsSound, IsValid,
}

not_ge→lt : (c : Ordering) → is_ge c ≡ false → c ≡ lt
not_ge→lt c h = ground arith

record_key_fields :
    (xs : List RowValue) (k : Key) → fields_key xs ≡ some (ok k) → record_key xs ≡ ok k
unfolding record_key fields_key
record_key_fields [] k e = cc
record_key_fields (x ∷ xs) k e = ground arith

module _ ⦃v : VarInt⦄ where
  -- All keys come after the one before.
  abbrev After : Option Key → List Row → Type 0
  After none rs = Unit
  After (some p) rs = All (λ r. p ≺ key_of r) rs

  check_records_step :
      (prev : Option Key) (i : ℕ) (r : Row) (rs : List Row)
      → check_records prev i (r ∷ rs) ≡ ok tt
      → IsEntry r
        × (is_not_after prev (key_of r) ≡ false)
        × (check_records (some (key_of r)) (i + 1) rs ≡ ok tt)
  unfolding check_records key_of fields_key
  check_records_step prev i r rs e = ground arith

  cons-After :
      (prev : Option Key) (r : Row) (rs : List Row)
      → is_not_after prev (key_of r) ≡ false
      → All (λ s. key_of r ≺ key_of s) rs
      → After prev (r ∷ rs)
  cons-After none r rs h a = tt
  cons-After (some p) r rs h a =
      let below : p ≺ key_of r = not_ge→lt _ h in
      (below, All-imp (λ s q. key_ord.cmp_trans p (key_of r) (key_of s) below q) rs a)

  check_records_sound :
      (prev : Option Key) (i : ℕ) (rs : List Row)
      → check_records prev i rs ≡ ok tt
      → All IsEntry rs × IsAscending key_of rs × After prev rs
  check_records_sound none i [] e = (tt, tt, tt)
  check_records_sound (some p) i [] e = (tt, tt, tt)
  check_records_sound prev i (r ∷ rs) e =
      let (entry, above, rest) = check_records_step prev i r rs e in
      let (entries, ordered, after) = check_records_sound (some (key_of r)) (i + 1) rs rest in
      ((entry, entries), (after, ordered), cons-After prev r rs above after)

  check_records_complete :
      (prev : Option Key) (i : ℕ) (rs : List Row)
      → All IsEntry rs
      → IsAscending key_of rs
      → After prev rs
      → check_records prev i rs ≡ ok tt
  unfolding check_records
  check_records_complete prev i [] h a b = refl
  check_records_complete prev i (r ∷ rs) h a b =
      let keyed : record_key r.fields ≡ ok (key_of r) =
        record_key_fields r.fields (key_of r) h.0.keyed in
      let room : ltb max_leaf_entry_size (leaf_entry_size r) ≡ false =
        ground (arith, h.0.row_fits) in
      let small : ltb max_internal_entry_size (internal_entry_size (key_of r)) ≡ false =
        ground (arith, h.0.key_fits) in
      rw (room, keyed, small, later prev b)
        (check_records_complete (some (key_of r)) (i + 1) rs h.1 a.1 a.0)
    where
      later : (q : Option Key) → After q (r ∷ rs) → is_not_after q (key_of r) ≡ false
      later none c = refl
      later (some p) c = rw c.0

  check_key_sizes_iff :
      (i : ℕ) (ks : List Key)
      → (check_key_sizes i ks ≡ ok tt)
        ↔ All (λ k. internal_entry_size k ≤ max_internal_entry_size) ks
  unfolding check_key_sizes
  check_key_sizes_iff i [] = (λ e. tt, λ h. refl)
  check_key_sizes_iff i (k ∷ ks) =
      let (sound, complete) = check_key_sizes_iff (i + 1) ks in
      (
        λ e. (ground arith, sound (ground arith)),
        λ h.
            let small : ltb max_internal_entry_size (internal_entry_size k) ≡ false =
              ground (arith, h.0) in
            rw small (complete h.1),
      )

  check_key_order_sound :
      (i : ℕ) (ks : List Key) → check_key_order i ks ≡ ok tt → IsAscending (λ k. k) ks
  unfolding check_key_order
  check_key_order_sound i [] e = tt
  check_key_order_sound i (k ∷ []) e = (tt, tt)
  check_key_order_sound i (k ∷ l ∷ ks) e =
      let below : k ≺ l = ground arith in
      let rest = check_key_order_sound (i + 1) (l ∷ ks) (ground arith) in
      ((below, All-imp (λ m q. key_ord.cmp_trans k l m below q) ks rest.0), rest)

  check_key_order_complete :
      (i : ℕ) (ks : List Key) → IsAscending (λ k. k) ks → check_key_order i ks ≡ ok tt
  unfolding check_key_order
  check_key_order_complete i [] a = refl
  check_key_order_complete i (k ∷ []) a = refl
  check_key_order_complete i (k ∷ l ∷ ks) a =
      rw a.0.0 (check_key_order_complete (i + 1) (l ∷ ks) a.1)

  check_body-IsSound : (b : PageBody) → check_body b ≡ ok tt → IsSound b
  unfolding check_body
  check_body-IsSound (leaf records next prev) e =
      let (entries, ordered, after) = check_records_sound none 0 records e in (entries, ordered)
  check_body-IsSound (internal keys children) e = (
    ground arith,
    (check_key_sizes_iff 0 keys).0 (ground arith),
    check_key_order_sound 0 keys (ground arith),
  )
  check_body-IsSound (meta root_id page_count head schema name) e = ground arith
  check_body-IsSound (free next) e = tt

  IsSound-check_body : (b : PageBody) → IsSound b → check_body b ≡ ok tt
  unfolding check_body
  IsSound-check_body (leaf records next prev) h = check_records_complete none 0 records h.0 h.1 tt
  IsSound-check_body (internal keys children) h =
      let count : (length children == length keys + 1) ≡ true = ground arith in
      rw (count, (check_key_sizes_iff 0 keys).1 h.1) (check_key_order_complete 0 keys h.2)
  IsSound-check_body (meta root_id page_count head schema name) h = ground arith
  IsSound-check_body (free next) h = refl

  -- `check_invariants` accepts a page exactly where the page satisfies the rules for its kind: it
  -- fits in 4096 bytes, rows and separators are within their size limits and strictly ascending,
  -- children are one more than separators, the head of the free list is below the page count, and
  -- the table name is at most 65535 bytes long.
  pub check_invariants-IsValid : (p : Page) → (check_invariants p ≡ ok tt) ↔ IsValid p
  unfolding check_invariants
  check_invariants-IsValid p = (
    λ e. record { fits = ground arith; sound = check_body-IsSound p.body (ground arith) },
    λ h.
        let room : leb (used_size p.body) page_size ≡ true = ground (arith, h.fits) in
        rw (room, check_invariants) (IsSound-check_body p.body h.sound),
  )

  -- On a valid page the debug assertion is silent.
  pub debug_check-IsValid : (p : Page) → IsValid p → debug_check p ≡ ok tt
  unfolding debug_check
  debug_check-IsValid p h = rw ((check_invariants-IsValid p).1 h, debug_check)
