-- ===== src/Page/Codec/Write.antt =====
-- `Page::as_raw_page` of src/page/codec.rs. The cursor on the 4096 bytes is a buffer and a position;
-- a write past the end is an error of the cursor.
use rust_db.Common.{
  ℕ, zero, suc, ◌+◌, ◌-◌, ◌%◌, ◌^◌, leb, if◌then◌else◌, List, [], ◌∷◌, ◌++◌, Outcome, ok, err,
  panic, ◌>>=◌, ◌>>◌, map_err, length, take, drop, Option, some,
}
use rust_db.Common.Bytes.{to_be}
use rust_db.Types.{
  Bytes, PageId, other, SlotEntry, Serializable, slot_entry_codec, slot_entry_size, page_id_codec,
  page_id_size, page_lsn_codec, option_codec,
}
use rust_db.Layout.{page_size, checksum_offset}
use rust_db.PageError.{PageError, io, lsn, value, key, schema, corrupt}
use rust_db.Schema.Values.{VarInt}
use rust_db.Schema.Key.{key_codec}
use rust_db.Schema.Row.{row_codec}
use rust_db.Schema.Columns.{schema_codec}
use rust_db.Page.{Page, PageBody, leaf, internal, meta, free, page_type_tag, num_items}
use rust_db.Page.Invariants.{check_invariants}
use rust_db.Page.Codec.{Crc32, page_checksum}

-- `[0u8; n]`.
abbrev pub zeros : ℕ → Bytes
zeros zero = []
zeros (suc n) = 0 ∷ zeros n

-- `seek` and `write_all`.
unfoldable pub write_at : ℕ → Bytes → Bytes → Outcome PageError Bytes
write_at pos bs buf =
    if leb (pos + length bs) page_size
    then ok (take pos buf ++ (bs ++ drop (pos + length bs) buf))
    else err (io other)

abbrev pub pointer_bytes : Option PageId → Outcome PageError Bytes
pointer_bytes p = map_err io ((option_codec page_id_codec (λ e. e)).serialize p)

-- The links of a leaf.
unfoldable pub link_bytes : PageBody → Outcome PageError Bytes
link_bytes (leaf records next prev) = do a ← pointer_bytes next; b ← pointer_bytes prev; ok (a ++ b)
link_bytes (internal ks children) = ok []
link_bytes (meta root_id page_count head s name) = ok []
link_bytes (free next) = ok []

-- `write_header`: the bytes of the header.
unfoldable pub header_bytes : Page → Outcome PageError Bytes
unfolding link_bytes
header_bytes p = do
  id ← map_err io (page_id_codec.serialize p.page_id)
  last ← map_err lsn (page_lsn_codec.serialize p.last_update)
  links ← link_bytes p.body
  ok (page_type_tag p ∷ (id ++ (last ++ (to_be 4 0 ++ (links ++ to_be 2 (num_items p % 2 ^ 16))))))

-- The loop over rows or keys: each value before the last one, and its entry after the last one.
-- The positions of the entries and of the data are returned.
unfoldable pub write_slots :
    {E T : Type 0}
    → (E → PageError)
    → Serializable E T
    → List T
    → ℕ
    → ℕ
    → Bytes
    → Outcome PageError ((ℕ × ℕ) × Bytes)
unfolding write_at
write_slots lift codec [] slot_offset data_offset buf = ok ((slot_offset, data_offset), buf)
write_slots lift codec (x ∷ xs) slot_offset data_offset buf = do
  buffer ← map_err lift (codec.serialize x)
  if leb (length buffer) data_offset then ok tt else panic
  let at = data_offset - length buffer
  with_data ← write_at at buffer buf
  let slot_entry : SlotEntry = record { offset = at % 2 ^ 16; length = length buffer % 2 ^ 16 }
  entry ← map_err io (slot_entry_codec.serialize slot_entry)
  with_entry ← write_at slot_offset entry with_data
  write_slots lift codec xs (slot_offset + slot_entry_size) at with_entry

unfoldable pub write_children : List PageId → ℕ → Bytes → Outcome PageError (ℕ × Bytes)
unfolding write_at
write_children [] children_pos buf = ok (children_pos, buf)
write_children (child ∷ children) children_pos buf = do
  bs ← map_err io (page_id_codec.serialize child)
  buf' ← write_at children_pos bs buf
  write_children children (children_pos + page_id_size) buf'

module _ ⦃v : VarInt⦄ where
  -- `write_body`: the offsets that it returns, and the buffer.
  unfoldable pub write_body : PageBody → ℕ → Bytes → Outcome PageError ((ℕ × ℕ) × Bytes)
  unfolding write_slots write_children
  write_body (leaf records next prev) header_end buf =
      write_slots value row_codec records header_end page_size buf
  write_body (internal ks children) header_end buf = do
    (slot_offset, buf') ← write_children children header_end buf
    write_slots key key_codec ks slot_offset page_size buf'
  write_body (free next) header_end buf = do
    bs ← pointer_bytes next
    buf' ← write_at header_end bs buf
    ok ((0, 0), buf')
  write_body (meta root_id page_count head s name) header_end buf = do
    root ← map_err io (page_id_codec.serialize root_id)
    pointer ← pointer_bytes head
    columns ← map_err schema (schema_codec.serialize s)
    buf' ←
        write_at header_end
          (root
            ++ (to_be 4 page_count
                ++ (pointer ++ (columns ++ (v.encode_var (length name) ++ name)))))
          buf
    ok ((0, 0), buf')

  -- `as_raw_page`.
  unfoldable pub as_raw_page : ⦃c : Crc32⦄ → Page → Outcome PageError Bytes
  unfolding header_bytes write_body write_at
  as_raw_page p = do
    map_err (λ kind. corrupt (some p.page_id) kind) (check_invariants p)
    header ← header_bytes p
    with_header ← write_at 0 header (zeros page_size)
    (offsets, buf) ← write_body p.body (length header) with_header
    write_at checksum_offset (to_be 4 (page_checksum buf)) buf
