-- ===== src/Page/Codec.antt =====
-- src/page/codec.rs: a page as 4096 bytes. The checksum is that of the crate crc32_light, a parameter.
pub mod Slots
pub mod Write
pub mod Read
pub mod Sound
pub mod Accept
use rust_db.Common.{ℕ, ◌+◌, ◌<◌, ◌^◌, ◌++◌, take, drop}
use rust_db.Types.{Bytes}
use rust_db.Layout.{checksum_offset}

-- `Crc32Stream`: the checksum of the bytes that it was updated with, a `u32`.
pub record Crc32 : Type 0 where
  pub crc : Bytes → ℕ
  pub crc_bound : (bs : Bytes) → crc bs < 2 ^ 32

-- `Page::page_checksum`: all bytes but those of the checksum.
unfoldable pub page_checksum : ⦃c : Crc32⦄ → Bytes → ℕ
page_checksum ⦃c⦄ raw_page =
    c.crc (take checksum_offset raw_page ++ drop (checksum_offset + 4) raw_page)
