-- ===== src/Relay/FecCodec.antt =====
-- src/relay/fec_codec.rs: blocks of payloads, sent as shards and assembled again.
-- A payload is a byte string; `Instant`s are numbers of nanoseconds, given to the calls that read
-- the clock.
pub mod Header
pub mod Sender
pub mod Payloads
pub mod Cells
pub mod Receiver
pub mod RoundTrip
pub mod Expiry
pub mod SumCode
pub mod Shapes
mod Tests
use entrouter_line.Base.{
  ℕ, zero, suc, ◌+◌, ◌-◌, ◌*◌, ◌/◌, ◌%◌, ◌^◌, ◌≡◌, max, Bool, true, false, ◌&&◌, ◌||◌, List, [],
  ◌∷◌, ◌++◌, map, Option, none, some, Run, ok, panic, ◌>>=◌, ◌>>◌, expect, Bytes, to_le, from_le,
  length, get_elem?, get_or, set, take, drop, replicate, ltb, leb, ◌==◌, if◌then◌else◌, is_some,
  lookup, insert, remove, retain, nat_eq,
}
use entrouter_line.Relay.Fec
use entrouter_line.Relay.Fec.{FecConfig, ReedSolomon, total_shards}
use entrouter_line.Relay.Wire.{copy_into, store, packet_data, packet_parity}

abbrev pub shard_header_size : ℕ
shard_header_size = 7

unfoldable pub encode_shard_header : Bytes → ℕ → ℕ → ℕ → ℕ → ℕ → Run Bytes
unfolding store copy_into
encode_shard_header buf block_id shard_idx data_shards parity_shards original_len = do
  buf₁ ← copy_into 0 (to_le 2 block_id) buf
  buf₂ ← store 2 shard_idx buf₁
  buf₃ ← store 3 data_shards buf₂
  buf₄ ← store 4 parity_shards buf₃
  copy_into 5 (to_le 2 original_len) buf₄

pub record ShardHeader : Type 0 where
  pub block_id : ℕ
  pub shard_idx : ℕ
  pub data_shards : ℕ
  pub parity_shards : ℕ
  pub original_len : ℕ

-- Behind the length test no index is out of range.
unfoldable pub decode_shard_header : Bytes → Option ShardHeader
decode_shard_header buf =
    if ltb (length buf) shard_header_size
    then none
    else some (record {
      block_id = from_le (get_or buf 0 0 ∷ get_or buf 1 0 ∷ []);
      shard_idx = get_or buf 2 0;
      data_shards = get_or buf 3 0;
      parity_shards = get_or buf 4 0;
      original_len = from_le (get_or buf 5 0 ∷ get_or buf 6 0 ∷ []);
    })

pub record FecSender : Type 0 where
  pub config : FecConfig
  pub block_id : ℕ
  pub buffer : List Bytes
  pub payload_lens : List ℕ

unfoldable pub new_sender : FecConfig → FecSender
new_sender c = record { config = c; block_id = 0; buffer = []; payload_lens = [] }

-- The payload behind its length, cast to `u16`.
abbrev pub prefixed : Bytes → Bytes
prefixed p = to_le 2 (length p % 2 ^ 16) ++ p

-- `iter().map(len).max()`.
abbrev pub max_len : List Bytes → ℕ
max_len [] = 0
max_len (s ∷ shards) = max (length s) (max_len shards)

abbrev pub max_len_or : ℕ → List Bytes → ℕ
max_len_or d [] = d
max_len_or d (s ∷ shards) = max_len (s ∷ shards)

-- `Vec::resize(n, 0)`.
abbrev pub resize : ℕ → Bytes → Bytes
resize n s = take n s ++ replicate (n - length s) 0

-- One shard behind its header, with its packet type.
unfoldable pub frame_shard : FecConfig → ℕ → ℕ → Bytes → Run (ℕ × Bytes)
unfolding encode_shard_header copy_into
frame_shard c block_id i shard =
    let ptype = if ltb i c.data_shards then packet_data else packet_parity in
    let original_len =
      if ltb i c.data_shards && leb 2 (length shard) then from_le (take 2 shard) else 0 in
    do
      framed ←
          encode_shard_header (replicate (shard_header_size + length shard) 0) block_id (i % 256)
            (c.data_shards % 256) (c.parity_shards % 256) original_len
      framed' ← copy_into shard_header_size shard framed
      ok (ptype, framed')

unfoldable pub frame_shards : FecConfig → ℕ → ℕ → List Bytes → Run (List (ℕ × Bytes))
unfolding frame_shard
frame_shards c block_id i [] = ok []
frame_shards c block_id i (shard ∷ shards) = do
  framed ← frame_shard c block_id i shard
  rest ← frame_shards c block_id (suc i) shards
  ok (framed ∷ rest)

-- The data shards of a block: equal lengths, and zero shards for the payloads that are missing.
unfoldable pub data_block : FecConfig → List Bytes → List Bytes
data_block c buffer =
    let shards = map prefixed buffer in
    let n = max_len_or 2 shards in
    map (resize n) shards ++ replicate (c.data_shards - length buffer) (replicate n 0)

module _ (rs : ReedSolomon) where
  unfoldable pub flush : FecSender → Run (FecSender × List (ℕ × Bytes))
  flush s = do
    encoder ← Fec.new_encoder rs s.config
    shards ← Fec.encode rs encoder (data_block s.config s.buffer)
    output ← frame_shards s.config s.block_id 0 shards
    ok (record s { block_id = (s.block_id + 1) % 2 ^ 16; buffer = []; payload_lens = [] }, output)

  flush_some : FecSender → Run (FecSender × Option (List (ℕ × Bytes)))
  flush_some s = do (s', output) ← flush s; ok (s', some output)

  unfoldable pub submit : FecSender → Bytes → Run (FecSender × Option (List (ℕ × Bytes)))
  unfolding flush_some
  submit s payload =
      let s' : FecSender = record s {
        buffer = s.buffer ++ payload ∷ [];
        payload_lens = s.payload_lens ++ (length payload % 2 ^ 16) ∷ [];
      } in
      if leb s.config.data_shards (length s'.buffer) then flush_some s' else ok (s', none)

  unfoldable pub flush_partial : FecSender → Run (FecSender × Option (List (ℕ × Bytes)))
  unfolding flush_some
  flush_partial s = if length s.buffer == 0 then ok (s, none) else flush_some s

abbrev pub buffered_count : FecSender → ℕ
buffered_count s = length s.buffer

pub record PendingBlock : Type 0 where
  pub data_shards : ℕ
  pub parity_shards : ℕ
  pub shards : List (Option Bytes)
  pub received : ℕ
  pub created_at : ℕ

unfoldable pub new_block : ℕ → ℕ → ℕ → PendingBlock
new_block now data_shards parity_shards = record {
  data_shards = data_shards;
  parity_shards = parity_shards;
  shards = replicate (data_shards + parity_shards) none;
  received = 0;
  created_at = now;
}

-- `self.shards[idx].is_some()`.
abbrev pub holds : List (Option Bytes) → ℕ → Bool
holds shards idx = is_some (get_or shards idx none)

unfoldable pub insert_shard : PendingBlock → ℕ → Bytes → PendingBlock × Bool
insert_shard b idx shard =
    if leb (b.data_shards + b.parity_shards) idx || holds b.shards idx
    then (b, leb b.data_shards b.received)
    else let b' : PendingBlock = record b {
      shards = set b.shards idx (some shard);
      received = b.received + 1;
    } in
      (b', leb b'.data_shards b'.received)

-- The payload of one data shard, if it holds one.
unfoldable pub payload_of : Option Bytes → List Bytes
payload_of none = []
payload_of (some shard) =
    let len = from_le (take 2 shard) in
    if ltb (length shard) 2
    then []
    else if len == 0
    then []
    else if ltb (length shard) (2 + len)
    then []
    else take len (drop 2 shard) ∷ []

-- The loop over the data shards; an index past the end panics.
unfoldable pub collect : ℕ → List (Option Bytes) → Run (List Bytes)
collect zero shards = ok []
collect (suc n) [] = panic
collect (suc n) (c ∷ shards) = do rest ← collect n shards; ok (payload_of c ++ rest)

abbrev pub FecReceiver : Type 0
FecReceiver = List (ℕ × PendingBlock)

-- `entry(block_id).or_insert_with(..)`.
abbrev pub entry_or_new : ℕ → ShardHeader → Option PendingBlock → PendingBlock
entry_or_new now h none = new_block now h.data_shards h.parity_shards
entry_or_new now h (some b) = b

module _ (rs : ReedSolomon) where
  abbrev pub config_of : PendingBlock → FecConfig
  config_of b = record { data_shards = b.data_shards; parity_shards = b.parity_shards }

  unfoldable pub reconstruct : PendingBlock → Run (Option (List Bytes))
  reconstruct b = if ltb b.received b.data_shards then ok none else do
    encoder ← Fec.new_encoder rs (config_of b)
    elim (Fec.reconstruct rs encoder b.shards) [
      | none ↦ ok none
      | some shards ↦ do payloads ← collect b.data_shards shards; ok (some payloads)
    ]

  -- The shard goes into its block, which is made if it is the first of its number; a block with
  -- enough shards is taken out of the map.
  unfoldable pub receive_at :
      ℕ → FecReceiver → ShardHeader → Bytes → Run (FecReceiver × Option (List Bytes))
  receive_at now r h shard =
      let block = entry_or_new now h (lookup h.block_id r) in
      let (block', can_reconstruct) = insert_shard block h.shard_idx shard in
      if can_reconstruct
      then (do payloads ← reconstruct block'; ok (remove h.block_id r, payloads))
      else ok (insert h.block_id block' r, none)

  unfoldable pub receive_shard : ℕ → FecReceiver → Bytes → Run (FecReceiver × Option (List Bytes))
  receive_shard now r payload = elim (decode_shard_header payload) [
    | none ↦ ok (r, none)
    | some h ↦ receive_at now r h (drop shard_header_size payload)
  ]

-- Ages are whole milliseconds.
unfoldable pub expire_old : ℕ → ℕ → FecReceiver → FecReceiver
expire_old now max_age_ms r = retain (λ b. ltb ((now - b.created_at) / 1_000_000) max_age_ms) r
