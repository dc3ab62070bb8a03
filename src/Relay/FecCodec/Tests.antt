-- ===== src/Relay/FecCodec/Tests.antt =====
-- Runs of src/relay/fec_codec.rs over an erasure code for two data shards and one parity shard.
use entrouter_line.Base.{
  ℕ, ◌++◌, ◌≤◌, ◌<◌, ◌≡◌, ◌≢◌, refl, List, [], ◌∷◌, map, none, some, ok, panic, ◌>>=◌, Bytes,
  length, replicate, arith, lookup, nat_eq,
}
use entrouter_line.Relay.Fec
use entrouter_line.Relay.Fec.{ReedSolomon, FecConfig}
use entrouter_line.Relay.FecCodec.Header.{shard_header_round_trip}
use entrouter_line.Relay.FecCodec.Sender.{framing, block_of, submit-padded}
use entrouter_line.Relay.FecCodec.RoundTrip.{deliver, arrive, flush-deliver}
use entrouter_line.Relay.FecCodec.SumCode.{
  plus, minus, encode_sum, restore_sum, sum_code, sum_Recovers,
}
use entrouter_line.Relay.FecCodec.{
  shard_header_size, ShardHeader, FecSender, FecReceiver, encode_shard_header, decode_shard_header,
  submit, flush, frame_shards, data_block, receive_shard, receive_at, new_block, insert_shard,
  reconstruct, collect, payload_of,
}

abbrev config : FecConfig
config = record { data_shards = 2; parity_shards = 1 }

abbrev waiting : FecSender
waiting = record {
  config = config;
  block_id = 65535;
  buffer = (7 ∷ 8 ∷ []) ∷ [];
  payload_lens = 2 ∷ [];
}

abbrev ready : FecSender
ready = record {
  config = config;
  block_id = 65535;
  buffer = (7 ∷ 8 ∷ []) ∷ (9 ∷ []) ∷ [];
  payload_lens = 2 ∷ 1 ∷ [];
}

program : Unit {0}
unfolding plus minus encode_sum restore_sum submit flush frame_shards data_block receive_shard
    receive_at decode_shard_header new_block insert_shard reconstruct collect payload_of deliver
    Fec.new_encoder Fec.encode Fec.reconstruct
program = tt

-- The second payload fills the block, and its first data shard is lost.
recovered :
    (submit sum_code waiting (9 ∷ []) >>= λ r. deliver sum_code [] (
      map
        (arrive (framing config 65535 0 (block_of sum_code ready sum_Recovers ready.buffer)))
        ((0, 2) ∷ (5, 1) ∷ [])))
    ≡ ok ([], ((7 ∷ 8 ∷ []) ∷ (9 ∷ []) ∷ []) ∷ [])
unfolding program
recovered = refl

abbrev header : ShardHeader
header = record {
  block_id = 1234;
  shard_idx = 5;
  data_shards = 10;
  parity_shards = 4;
  original_len = 800;
}

shard_header_round_trip_example :
    let buf : Bytes = replicate 9 0 in
    let written = encode_shard_header buf 1234 5 10 4 800 in
    (shard_header_size ≤ length buf
      → written >>= (λ out. ok (decode_shard_header out)) ≡ ok (some header))
    × (length buf < shard_header_size → (written ≡ panic) × (decode_shard_header buf ≡ none))
shard_header_round_trip_example =
    shard_header_round_trip (replicate 9 0) header (omega arith) (omega arith)

submit-padded_example :
    let buffer : List Bytes = (7 ∷ 8 ∷ []) ∷ (9 ∷ []) ∷ [] in
    let block : List Bytes = (2 ∷ 0 ∷ 7 ∷ 8 ∷ []) ∷ (1 ∷ 0 ∷ 9 ∷ 0 ∷ []) ∷ [] in
    (length buffer < 2
      → (t : FecSender) × (submit sum_code waiting (9 ∷ []) ≡ ok (t, none))
        × (t.buffer ≡ buffer)
        × (t.block_id ≡ 65535)
        × (t.config ≡ config))
    × (length buffer ≡ 2
        → submit sum_code waiting (9 ∷ [])
          ≡ ok (
            record { config = config; block_id = 0; buffer = []; payload_lens = [] },
            some (framing config 65535 0 (block ++ sum_Recovers.parity block)),
          ))
submit-padded_example = submit-padded sum_code waiting (9 ∷ []) sum_Recovers (omega arith)

flush-deliver_example :
    (t : FecSender) × (frames : List (ℕ × Bytes)) × (after : FecReceiver) × (flush sum_code ready
      ≡ ok (t, frames))
    × (length t.buffer ≡ 0)
    × (deliver sum_code [] (map (arrive frames) ((0, 2) ∷ (5, 1) ∷ []))
        ≡ ok (after, ready.buffer ∷ []))
    × (lookup 65535 after ≡ none)
    × ((j : ℕ) → j ≢ 65535 → lookup j after ≡ none)
flush-deliver_example =
    flush-deliver sum_code ready [] ((0, 2) ∷ (5, 1) ∷ []) sum_Recovers (omega arith) (omega arith)
      (omega arith) (omega arith) (omega arith) (omega arith) refl (omega arith) (omega arith) refl
