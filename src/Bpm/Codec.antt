-- ===== src/Bpm/Codec.antt =====
-- The codec of src/page/codec.rs as that of the pool.
use rust_db.Common.{ok, ◌>>=◌}
use rust_db.Schema.Values.{VarInt}
use rust_db.Page.Codec.{Crc32}
use rust_db.Page.Codec.Read.{page_deserialize}
use rust_db.Page.Codec.Write.{as_raw_page}
use rust_db.Bpm.State.{PageCodec}

instance pub page_codec : ⦃v : VarInt⦄ → ⦃c : Crc32⦄ → PageCodec
page_codec = record {
  deserialize = λ raw. page_deserialize raw >>= λ z. ok z.0;
  as_raw_page = λ p. as_raw_page p;
}
