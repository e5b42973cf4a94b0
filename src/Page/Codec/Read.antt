-- ===== src/Page/Codec/Read.antt =====
-- `Page::deserialize` of src/page/codec.rs. The cursor is what follows it in the buffer.
use rust_db.Common.{
  ℕ, zero, suc, ◌+◌, ◌^◌, ◌==◌, ltb, if◌then◌else◌, Bool, true, false, not, List, [], ◌∷◌, Outcome,
  ok, err, panic, ◌>>=◌, ◌>>◌, require, map_err, take, drop, Option, none, some,
}
use rust_db.Common.Bytes.{from_be}
use rust_db.Types.{Bytes, PageId, IoError, read_buf, page_id_codec, page_lsn_codec, option_codec}
use rust_db.Layout.{
  page_size, leaf_tag, internal_tag, meta_tag, free_tag, checksum_offset, max_leaf_items,
  max_internal_items,
}
use rust_db.PageError.{
  PageError, CorruptionKind, io, lsn, corrupt, utf8, invalid_tag, too_many_items,
  check_sum_mismatch, invalid_pointer_tag, bad_schema, corrupt_row, corrupt_key,
}
use rust_db.Schema.Values.{VarInt, read_text}
use rust_db.Schema.Key.{key_codec}
use rust_db.Schema.Row.{row_codec}
use rust_db.Schema.Columns.{schema_codec}
use rust_db.Page.{Page, PageBody, leaf, internal, meta, free}
use rust_db.Page.Invariants.{check_invariants}
use rust_db.Page.Codec.{Crc32, page_checksum}
use rust_db.Page.Codec.Slots.{read_slot_ranges, decode_slots}

-- The closure `corrupt`, and every error mapped to one kind.
abbrev pub corrupt_on : {A : Type 0} → PageId → Outcome CorruptionKind A → Outcome PageError A
corrupt_on id r = map_err (λ kind. corrupt (some id) kind) r

abbrev pub bad : {E A : Type 0} → PageId → CorruptionKind → Outcome E A → Outcome PageError A
bad id kind r = map_err (λ _. corrupt (some id) kind) r

abbrev pub read_pointer : Bytes → Outcome IoError (Option PageId × Bytes)
read_pointer bs = (option_codec page_id_codec (λ e. e)).deserialize bs

-- The links of a leaf; other pages have none.
unfoldable pub read_links :
    PageId → ℕ → Bytes → Outcome PageError ((Option PageId × Option PageId) × Bytes)
read_links id tag bs =
    if tag == leaf_tag
    then (do
      (next, more) ← bad id invalid_pointer_tag (read_pointer bs)
      (prev, rest) ← bad id invalid_pointer_tag (read_pointer more)
      ok ((next, prev), rest))
    else ok ((none, none), bs)

unfoldable pub max_items : ℕ → Outcome PageError ℕ
max_items tag =
    if tag == meta_tag
    then ok 0
    else if tag == free_tag
    then ok 0
    else if tag == internal_tag
    then ok max_internal_items
    else if tag == leaf_tag
    then ok max_leaf_items
    else err (corrupt none (invalid_tag tag))

unfoldable pub read_children : {E : Type 0} → ℕ → Bytes → Outcome E (List PageId × Bytes)
read_children zero bs = ok ([], bs)
read_children (suc n) bs = elim (page_id_codec.deserialize bs) [
  | ok (child, rest) ↦ read_children n rest >>= λ z. ok (child ∷ z.0, z.1)
  | err e ↦ panic
  | panic ↦ panic
]

module _ ⦃v : VarInt⦄ where
  unfoldable pub read_leaf :
      PageId → Bytes → ℕ → Option PageId → Option PageId → Bytes → Outcome PageError PageBody
  read_leaf id buf num_items next prev bs = do
    ranges ← corrupt_on id (read_slot_ranges num_items bs)
    records ← corrupt_on id (decode_slots row_codec corrupt_row buf 0 ranges)
    ok (leaf records next prev)

  unfoldable pub read_internal : PageId → Bytes → ℕ → Bytes → Outcome PageError PageBody
  read_internal id buf num_items bs = do
    (children, rest) ← read_children (num_items + 1) bs
    ranges ← corrupt_on id (read_slot_ranges num_items rest)
    ks ← corrupt_on id (decode_slots key_codec corrupt_key buf 0 ranges)
    ok (internal ks children)

  unfoldable pub read_free : PageId → Bytes → Outcome PageError PageBody
  read_free id bs = do (next, rest) ← bad id invalid_pointer_tag (read_pointer bs); ok (free next)

  -- `vec![0u8; name_len]`: above `isize::MAX` the capacity overflows, which is a panic. That the
  -- memory can be had is assumed.
  abbrev require_capacity : {E : Type 0} → Bool → Outcome E (Unit {0})
  require_capacity b = if b then ok tt else panic

  unfoldable pub read_meta : PageId → Bytes → Outcome PageError PageBody
  read_meta id bs = do
    (root_id, b) ← bad id invalid_pointer_tag (page_id_codec.deserialize bs)
    (count, c) ← read_buf io 4 b
    (head, d) ← bad id invalid_pointer_tag (read_pointer c)
    (schema, e) ← bad id bad_schema (schema_codec.deserialize d)
    (name_len, f) ← map_err io (v.read_varint e)
    require_capacity (ltb name_len (2 ^ 63))
    (name, g) ← read_text io utf8 name_len f
    ok (meta root_id (from_be count) head schema name)

  unfoldable pub read_body :
      PageId → ℕ → Bytes → ℕ → Option PageId → Option PageId → Bytes → Outcome PageError PageBody
  unfolding read_leaf read_internal read_free read_meta
  read_body id tag buf num_items next prev bs =
      if tag == leaf_tag
      then read_leaf id buf num_items next prev bs
      else if tag == internal_tag
      then read_internal id buf num_items bs
      else if tag == free_tag
      then read_free id bs
      else if tag == meta_tag
      then read_meta id bs
      else panic

  -- The page in a buffer whose checksum was compared, before its rules are checked.
  unfoldable pub parse_page : Bytes → Outcome PageError Page
  unfolding read_links max_items read_body
  parse_page buf = do
    (tag_byte, a) ← read_buf io 1 buf
    let tag = from_be tag_byte
    (id, b) ← map_err io (page_id_codec.deserialize a)
    (last_update, c) ← map_err lsn (page_lsn_codec.deserialize b)
    (links, d) ← read_links id tag (drop (checksum_offset + 4) buf)
    (count, e) ← read_buf io 2 d
    let num_items = from_be count
    most ← max_items tag
    require (not (ltb most num_items)) (corrupt (some id) (too_many_items num_items))
    body ← read_body id tag buf num_items links.0 links.1 e
    ok (record { page_id = id; last_update = last_update; body = body })

  -- The number that a buffer has in the place of its checksum.
  abbrev pub stored_checksum : Bytes → ℕ
  stored_checksum buf = from_be (take 4 (drop checksum_offset buf))

  -- The end of `Page::deserialize`, by the test of the checksum: the rules are checked.
  unfoldable pub accept : Bool → Outcome PageError Page → Outcome PageError Page
  accept false parsed = err (corrupt none check_sum_mismatch)
  accept true parsed = parsed >>= λ p. corrupt_on p.page_id (check_invariants p) >> ok p

  -- `Page::deserialize` of a whole buffer.
  unfoldable pub page_of_buffer : ⦃c : Crc32⦄ → Bytes → Outcome PageError Page
  unfolding parse_page accept
  page_of_buffer buf = accept (page_checksum buf == stored_checksum buf) (parse_page buf)

  unfoldable pub page_deserialize : ⦃c : Crc32⦄ → Bytes → Outcome PageError (Page × Bytes)
  unfolding page_of_buffer
  page_deserialize bs = do
    (buf, rest) ← read_buf io page_size bs
    p ← page_of_buffer buf
    ok (p, rest)
