-- ===== src/Page/Codec/Accept.antt =====
-- What `Page::deserialize` of src/page/codec.rs makes of a buffer.
use rust_db.Common.{
  ◌≡◌, ◌≢◌, ◌⊎◌, inl, inr, refl, sym, ap, none, some, ◌==◌, true, Bool-cases, Outcome, ok, err,
  panic, ◌>>◌, subst, arith,
}
use rust_db.Types.{Bytes}
use rust_db.PageError.{PageError, CorruptionKind, corrupt, check_sum_mismatch}
use rust_db.Schema.Values.{VarInt}
use rust_db.Page.{Page}
use rust_db.Page.Invariants.{IsValid, check_invariants}
use rust_db.Page.Invariants.Decides.{check_invariants-IsValid}
use rust_db.Page.Invariants.Silent.{check_invariants-ends}
use rust_db.Page.Codec.{Crc32, page_checksum}
use rust_db.Page.Codec.Read.{accept, parse_page, page_of_buffer, stored_checksum, corrupt_on}

module _ ⦃v : VarInt⦄ where
  -- The rules for a page that was parsed: it is returned where it is valid, and else an error names
  -- it.
  abbrev pub RuleCases : Page → Outcome PageError Page → Type 0
  RuleCases p r =
      (IsValid p × (r ≡ ok p))
      ⊎ ((¬ IsValid p) × (kind : CorruptionKind) × (r ≡ err (corrupt (some p.page_id) kind)))

  rules-RuleCases : (p : Page) → RuleCases p (corrupt_on p.page_id (check_invariants p) >> ok p)
  rules-RuleCases p = go (check_invariants p) refl
    where
      go :
          (r : Outcome CorruptionKind (Unit {0}))
          → check_invariants p ≡ r
          → RuleCases p (corrupt_on p.page_id r >> ok p)
      go (ok done) e = inl ((check_invariants-IsValid p).0 e, refl)
      go (err kind) e = inr ((λ valid. clash ((check_invariants-IsValid p).1 valid)), kind, refl)
        where
          clash : check_invariants p ≡ ok tt → ⊥
          clash q = cc
      go panic e = absurd (check_invariants-ends p e)

  -- What the end of the reading makes of a page that was parsed.
  abbrev pub ParsedCases : Outcome PageError Page → Outcome PageError Page → Type 0
  ParsedCases parsed r =
      ((p : Page) × (parsed ≡ ok p) × RuleCases p r)
      ⊎ ((e : PageError) × (parsed ≡ err e) × (r ≡ err e))
      ⊎ ((parsed ≡ panic) × (r ≡ panic))

  accept-ParsedCases : (parsed : Outcome PageError Page) → ParsedCases parsed (accept true parsed)
  unfolding accept
  accept-ParsedCases (ok p) = inl (p, refl, rules-RuleCases p)
  accept-ParsedCases (err e) = inr (inl (e, refl, refl))
  accept-ParsedCases panic = inr (inr (refl, refl))

  module _ ⦃c : Crc32⦄ where
    abbrev pub ReadCases : Bytes → Type 0
    ReadCases buf =
        ((page_checksum buf ≢ stored_checksum buf)
          × (page_of_buffer buf ≡ err (corrupt none check_sum_mismatch)))
        ⊎ ((page_checksum buf ≡ stored_checksum buf)
            × ParsedCases (parse_page buf) (page_of_buffer buf))

    -- Where the checksum in a buffer is not that of its other bytes, `deserialize` reports a
    -- mismatch. Else, where parsing gives a page, that page is returned where it satisfies the
    -- rules for its kind, and an error that names it where it does not; an error of the parsing
    -- is returned, and a panic of the parsing is a panic.
    pub page_of_buffer-ReadCases : (buf : Bytes) → ReadCases buf
    unfolding page_of_buffer accept
    page_of_buffer-ReadCases buf = elim (Bool-cases (page_checksum buf == stored_checksum buf)) [
      | inl same ↦ inr (
        ground (arith, same),
        subst (λ b. ParsedCases (parse_page buf) (accept b (parse_page buf))) (sym same)
            (accept-ParsedCases (parse_page buf)),
      )
      | inr other ↦ inl (ground (arith, other), ap (λ b. accept b (parse_page buf)) other)
    ]
