-- ===== src/Relay/FecCodec/Header.antt =====
-- src/relay/fec_codec.rs, the shard header.
use entrouter_line.Base.{
  ℕ, ◌+◌, ◌%◌, ◌^◌, ◌≤◌, ◌<◌, ◌≡◌, refl, ap, ◌∙◌, ◌∷◌, ◌++◌, none, some, ok, panic, ◌>>=◌, Bytes,
  to_le, from_le, from_le-to_le, length, take, drop, leb, ltb, if◌then◌else◌, arith, replicate,
  length-replicate, length-drop, ◌&&◌,
}
use entrouter_line.Relay.Wire.{packet_data, packet_parity}
use entrouter_line.Relay.Wire.RoundTrip.{copy_into-rest}
use entrouter_line.Relay.Fec.{FecConfig}
use entrouter_line.Relay.FecCodec.{
  shard_header_size, encode_shard_header, decode_shard_header, ShardHeader, frame_shard,
}

-- The header as a byte string.
abbrev pub shard_header : ShardHeader → Bytes
shard_header h =
    to_le 2 h.block_id ++ h.shard_idx ∷ h.data_shards ∷ h.parity_shards ∷ to_le 2 h.original_len

pub encode_shard_header-shard_header :
    (buf : Bytes) (h : ShardHeader)
    → shard_header_size ≤ length buf
    → encode_shard_header buf h.block_id h.shard_idx h.data_shards h.parity_shards h.original_len
      ≡ ok (shard_header h ++ drop shard_header_size buf)
unfolding encode_shard_header
encode_shard_header-shard_header (b0 ∷ b1 ∷ b2 ∷ b3 ∷ b4 ∷ b5 ∷ b6 ∷ rest) h p = ground arith
encode_shard_header-shard_header _ h p = absurd (omega arith)

-- A header is read back from in front of any shard; a length that is no `u16` is cut.
pub decode_shard_header-cut :
    (h : ShardHeader) (rest : Bytes)
    → h.block_id < 2 ^ 16
    → decode_shard_header (shard_header h ++ rest)
      ≡ some (record h { original_len = from_le (to_le 2 h.original_len) })
unfolding decode_shard_header
decode_shard_header-cut h rest bid = let p = from_le-to_le 2 h.block_id bid in ground (arith, p)

pub decode_shard_header-shard_header :
    (h : ShardHeader) (rest : Bytes)
    → h.block_id < 2 ^ 16
    → h.original_len < 2 ^ 16
    → decode_shard_header (shard_header h ++ rest) ≡ some h
decode_shard_header-shard_header h rest bid len =
    decode_shard_header-cut h rest bid
    ∙ ap (λ t. some (record h { original_len = t })) (from_le-to_le 2 h.original_len len)

shard_header_short :
    (buf : Bytes) (h : ShardHeader)
    → length buf < shard_header_size
    → (encode_shard_header buf h.block_id h.shard_idx h.data_shards h.parity_shards h.original_len
        ≡ panic)
      × (decode_shard_header buf ≡ none)
unfolding encode_shard_header decode_shard_header
shard_header_short (b0 ∷ b1 ∷ b2 ∷ b3 ∷ b4 ∷ b5 ∷ b6 ∷ rest) h p = absurd (omega arith)
shard_header_short _ h p = (refl, refl)

-- What `encode_shard_header` writes over the start of a long enough buffer, `decode_shard_header`
-- reads back; a buffer that is too short panics in the writer, and is refused by the reader.
pub shard_header_round_trip :
    (buf : Bytes) (h : ShardHeader)
    → h.block_id < 2 ^ 16
    → h.original_len < 2 ^ 16
    → let written =
        encode_shard_header buf h.block_id h.shard_idx h.data_shards h.parity_shards
          h.original_len in
      (shard_header_size ≤ length buf
        → written >>= (λ out. ok (decode_shard_header out)) ≡ ok (some h))
      × (length buf < shard_header_size → (written ≡ panic) × (decode_shard_header buf ≡ none))
shard_header_round_trip buf h bid len = (
  λ long.
      rw (encode_shard_header-shard_header buf h long)
        (ap ok (decode_shard_header-shard_header h (drop shard_header_size buf) bid len)),
  shard_header_short buf h,
)

-- The header that the sender puts in front of shard `i`.
abbrev pub header_at : FecConfig → ℕ → ℕ → Bytes → ShardHeader
header_at c block_id i shard = record {
  block_id = block_id;
  shard_idx = i % 256;
  data_shards = c.data_shards % 256;
  parity_shards = c.parity_shards % 256;
  original_len = if ltb i c.data_shards && leb 2 (length shard) then from_le (take 2 shard) else 0;
}

abbrev pub type_at : FecConfig → ℕ → ℕ
type_at c i = if ltb i c.data_shards then packet_data else packet_parity

-- A frame is the header and the shard.
pub frame_shard-header_at :
    (c : FecConfig) (block_id i : ℕ) (shard : Bytes)
    → frame_shard c block_id i shard
      ≡ ok (type_at c i, shard_header (header_at c block_id i shard) ++ shard)
unfolding frame_shard
frame_shard-header_at c block_id i shard =
    let zeros : Bytes = replicate (shard_header_size + length shard) 0 in
    let size = length-replicate {A = ℕ} (shard_header_size + length shard) 0 in
    let h = header_at c block_id i shard in
    rw (encode_shard_header-shard_header zeros h (omega (arith, size))) (
      rw (
        copy_into-rest (shard_header h) (drop shard_header_size zeros) shard
          (omega (arith, length-drop shard_header_size zeros, size))))
