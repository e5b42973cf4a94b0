-- ===== src/Page/Invariants/Silent.antt =====
-- `Page::check_invariants` of src/page/invariants.rs ends without a panic on every page.
use rust_db.Common.{
  ℕ, ◌+◌, ◌≡◌, ◌≢◌, refl, List, [], ◌∷◌, Option, none, some, Outcome, ok, err, panic, arith,
}
use rust_db.Schema.Values.{VarInt, RowValue}
use rust_db.Schema.Key.{Key, key_of_value}
use rust_db.Schema.Row.{Row}
use rust_db.PageError.{CorruptionKind}
use rust_db.Page.{Page, PageBody, leaf, internal, meta, free}
use rust_db.Page.Invariants.{
  check_invariants, check_body, check_records, check_key_sizes, check_key_order, record_key,
}

record_key-ends : (xs : List RowValue) → record_key xs ≢ panic
unfolding record_key key_of_value
record_key-ends [] e = cc
record_key-ends (RowValue.integer n ∷ xs) e = cc
record_key-ends (RowValue.string n ∷ xs) e = cc
record_key-ends (RowValue.null ∷ xs) e = cc
record_key-ends (RowValue.float n ∷ xs) e = cc
record_key-ends (RowValue.boolean n ∷ xs) e = cc

module _ ⦃v : VarInt⦄ where
  check_records-ends : (prev : Option Key) (i : ℕ) (rs : List Row) → check_records prev i rs ≢ panic
  unfolding check_records
  check_records-ends prev i [] e = cc
  check_records-ends prev i (r ∷ rs) e =
      go (record_key r.fields) refl (λ key. check_records-ends (some key) (i + 1) rs)
    where
      go :
          (k : Outcome CorruptionKind Key)
          → record_key r.fields ≡ k
          → ((key : Key) → check_records (some key) (i + 1) rs ≢ panic)
          → ⊥
      go (ok key) q rest = ground (arith, rest key)
      go (err x) q rest = ground arith
      go panic q rest = record_key-ends r.fields q

  check_key_sizes-ends : (i : ℕ) (ks : List Key) → check_key_sizes i ks ≢ panic
  unfolding check_key_sizes
  check_key_sizes-ends i [] e = cc
  check_key_sizes-ends i (k ∷ ks) e = ground (arith, check_key_sizes-ends (i + 1) ks)

  check_key_order-ends : (i : ℕ) (ks : List Key) → check_key_order i ks ≢ panic
  unfolding check_key_order
  check_key_order-ends i [] e = cc
  check_key_order-ends i (k ∷ []) e = cc
  check_key_order-ends i (k ∷ l ∷ ks) e = ground (arith, check_key_order-ends (i + 1) (l ∷ ks))

  check_body-ends : (b : PageBody) → check_body b ≢ panic
  unfolding check_body
  check_body-ends (leaf records next prev) e = check_records-ends none 0 records e
  check_body-ends (internal keys children) e =
      ground (arith, check_key_sizes-ends 0 keys, check_key_order-ends 0 keys)
  check_body-ends (meta root_id page_count head schema name) e = ground arith
  check_body-ends (free next) e = cc

  pub check_invariants-ends : (p : Page) → check_invariants p ≢ panic
  unfolding check_invariants
  check_invariants-ends p e = ground (arith, check_body-ends p.body)
