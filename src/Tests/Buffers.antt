-- ===== src/Tests/Buffers.antt =====
-- Pages as bytes, run with a checksum that is always 0.
use rust_db.Common.{◌≡◌, ◌-◌, refl, List, [], ◌∷◌, ok, All, length, arith}
use rust_db.Types.{Bytes, Range, range, slot_entry_codec}
use rust_db.Common.Bytes.{read_exact, from_be}
use rust_db.Layout.{page_size}
use rust_db.PageError.{CorruptionKind}
use rust_db.Page.Codec.{Crc32}
use rust_db.Page.Codec.Slots.{read_slot_ranges, read_entries}
use rust_db.Page.Codec.Sound.{IsInside, AllApart, read_slot_ranges-AllApart}
use rust_db.Page.Codec.Accept.{ReadCases, page_of_buffer-ReadCases}
use rust_db.Tests.Leb128.{leb128}

instance no_checksum : Crc32
no_checksum = record { crc = λ bs. 0; crc_bound = λ bs. omega arith }

-- Page 5 of table 7, free and the last of its list.
abbrev free_buffer : Bytes
free_buffer =
    4 ∷ 0 ∷ 0 ∷ 0 ∷ 7 ∷ 0 ∷ 0 ∷ 0 ∷ 5 ∷ 0 ∷ 0 ∷ 0 ∷ 0 ∷ 0 ∷ 0 ∷ 0 ∷ 0 ∷ 0 ∷ 0 ∷ 0 ∷ 0 ∷ 0 ∷ 0 ∷ 0
    ∷ []

page_of_buffer-ReadCases_example : ReadCases free_buffer
page_of_buffer-ReadCases_example = page_of_buffer-ReadCases free_buffer

-- Two entries of ten bytes each, and the last twenty bytes of a page.
abbrev two_entries : Bytes
two_entries =
    15 ∷ 246 ∷ 0 ∷ 10 ∷ 15 ∷ 236 ∷ 0 ∷ 10 ∷ 0 ∷ 0 ∷ 0 ∷ 0 ∷ 0 ∷ 0 ∷ 0 ∷ 0 ∷ 0 ∷ 0 ∷ 0 ∷ 0 ∷ 0 ∷ 0
    ∷ 0 ∷ 0 ∷ 0 ∷ 0 ∷ 0 ∷ 0 ∷ []

abbrev two_ranges : List Range
two_ranges = record { start = 4086; end = 4096 } ∷ record { start = 4076; end = 4086 } ∷ []

read_slot_ranges-AllApart_example :
    (rest : Bytes) × (read_entries {E = CorruptionKind} 2 two_entries ≡ ok (two_ranges, rest))
    × All (IsInside (page_size - length rest)) two_ranges
    × AllApart two_ranges
unfolding read_slot_ranges slot_entry_codec read_exact range from_be
read_slot_ranges-AllApart_example = read_slot_ranges-AllApart 2 two_entries two_ranges refl
