-- ===== src/TestHarness.antt =====
-- src/bin/test_harness.rs: blocks of data, sent through a lossy proxy to a receiver that counts which
-- of them it can reconstruct. The random data, the key and the sockets are parameters: the data of the
-- blocks is given, and what the receiver gets is a sequence of arrivals.
pub mod Proxy
pub mod Store
pub mod Receiving
pub mod Recovery
pub mod Sending
pub mod EndToEnd
mod Tests
use entrouter_line.Base.{
  ℕ, zero, suc, ◌+◌, ◌/◌, ◌%◌, ◌^◌, ◌≡◌, Bool, true, false, ◌&&◌, List, [], ◌∷◌, ◌++◌, Option, none,
  some, Run, ok, panic, ◌>>=◌, Bytes, bytes_eq, nat_eq, from_le, length, get_or, set, take, drop,
  replicate, ltb, ◌==◌, if◌then◌else◌, is_some, lookup, insert,
}
use entrouter_line.LossyProxy.{Event, Output, buffer_size, to_sender}
use entrouter_line.LossyProxy
use entrouter_line.Relay.Crypto.{Aead, decrypt}
use entrouter_line.Relay.Fec
use entrouter_line.Relay.Fec.{FecConfig, LossTracker, ReedSolomon, total_shards, record_packet}
use entrouter_line.Relay.Tunnel.{build_frame, catch_up, split_data, received_len, recv_into}
use entrouter_line.Relay.Wire.{
  packet_data, packet_parity, packet_control, header_size, decode_header,
}

-- `to_be_bytes` of an unsigned integer of `k` bytes.
abbrev pub to_be : ℕ → ℕ → Bytes
to_be zero v = []
to_be (suc k) v = (v / 256 ^ k % 256) ∷ to_be k v

-- A shard behind the number of its block, a `u32`, and its own, a `u16`.
abbrev pub prefixed : ℕ → ℕ → Bytes → Bytes
prefixed block_idx i shard = to_be 4 (block_idx % 2 ^ 32) ++ (to_be 2 (i % 2 ^ 16) ++ shard)

-- `b"DONE"`.
abbrev pub done : Bytes
done = 68 ∷ 79 ∷ 78 ∷ 69 ∷ []

-- The sender of `main`: frames under consecutive sequence numbers.
module _ (a : Aead) (rs : ReedSolomon) (key : Bytes) (c : FecConfig) where
  unfoldable pub send_shards : ℕ → ℕ → ℕ → List Bytes → Run (ℕ × List Bytes)
  send_shards seq block_idx i [] = ok (seq, [])
  send_shards seq block_idx i (shard ∷ shards) =
      let ptype = if ltb i c.data_shards then packet_data else packet_parity in
      do
        frame ← build_frame a key seq ptype (prefixed block_idx i shard)
        (seq', frames) ← send_shards ((seq + 1) % 2 ^ 64) block_idx (suc i) shards
        ok (seq', frame ∷ frames)

  unfoldable pub send_block : ℕ → ℕ → Bytes → Run (ℕ × List Bytes)
  send_block seq block_idx payload = do
    encoder ← Fec.new_encoder rs c
    shards ← split_data c.data_shards payload
    encoded ← Fec.encode rs encoder shards
    send_shards seq block_idx 0 encoded

  unfoldable pub send_blocks : ℕ → ℕ → List Bytes → Run (ℕ × List Bytes)
  send_blocks seq block_idx [] = ok (seq, [])
  send_blocks seq block_idx (payload ∷ payloads) = do
    (seq', frames) ← send_block seq block_idx payload
    (seq'', more) ← send_blocks seq' (suc block_idx) payloads
    ok (seq'', frames ++ more)

  unfoldable pub send_all : List Bytes → Run (List Bytes)
  send_all payloads = do
    (seq, frames) ← send_blocks 0 0 payloads
    term ← build_frame a key seq packet_control done
    ok (frames ++ term ∷ [])

-- `run_lossy_proxy`, of which the target's datagrams pass to the sender without loss.
unfoldable pub proxy_pass : ℕ → LossyProxy.Proxy → ℕ → Bytes → Bool → LossyProxy.Proxy × Output
proxy_pass target p from packet drop =
    if from == target
    then (p, to_sender packet p.sender_addr)
    else if drop
    then (record p { sender_addr = some from; dropped = (p.dropped + 1) % 2 ^ 64 }, [])
    else (record p { sender_addr = some from }, (target, packet) ∷ [])

unfoldable pub run_lossy_proxy : ℕ → LossyProxy.Proxy → List Event → LossyProxy.Proxy × List Output
run_lossy_proxy target p [] = (p, [])
run_lossy_proxy target p (LossyProxy.failed ∷ events) =
    let q = run_lossy_proxy target p events in (q.0, [] ∷ q.1)
run_lossy_proxy target p (LossyProxy.datagram from bytes drop ∷ events) =
    let r =
      proxy_pass target (record p { total = (p.total + 1) % 2 ^ 64 }) from (take buffer_size bytes)
        drop in
    let q = run_lossy_proxy target r.0 events in (q.0, r.1 ∷ q.1)

-- The shards of each block, in their cells.
abbrev pub Blocks : Type 0
Blocks = List (ℕ × List (Option Bytes))

-- `entry(block_idx).or_insert_with(..)`.
abbrev pub cells_or_new : ℕ → Option (List (Option Bytes)) → List (Option Bytes)
cells_or_new total none = replicate total none
cells_or_new total (some cells) = cells

-- A shard past the end of its block makes the block and nothing more.
unfoldable pub store_shard : ℕ → Blocks → ℕ → ℕ → Bytes → Blocks
store_shard total blocks block_idx shard_idx shard =
    let cells = cells_or_new total (lookup block_idx blocks) in
    insert block_idx (if ltb shard_idx total then set cells shard_idx (some shard) else cells)
      blocks

-- What a decrypted packet does to the blocks; `none` is the end of the test.
unfoldable pub take_packet : ℕ → Blocks → ℕ → Bytes → Option Blocks
take_packet total blocks packet_type plaintext =
    let block_idx = from_le (
      get_or plaintext 3 0
      ∷ get_or plaintext 2 0
      ∷ get_or plaintext 1 0
      ∷ get_or plaintext 0 0
      ∷ []) in
    let shard_idx = from_le (get_or plaintext 5 0 ∷ get_or plaintext 4 0 ∷ []) in
    if packet_type == packet_control && bytes_eq plaintext done
    then none
    else if ltb (length plaintext) 6
    then some blocks
    else some (store_shard total blocks block_idx shard_idx (drop 6 plaintext))

-- The variables of the loop of `run_receiver`.
pub record Receiver : Type 0 where
  pub expected_seq : ℕ
  pub loss_tracker : LossTracker
  pub blocks : Blocks

-- A datagram from an address, an error of the socket, or two seconds without either.
pub data Arrival : Type 0 where
  timeout failed : Arrival
  datagram : ℕ → Bytes → Arrival

-- What a round leaves: the state, and whether the loop goes on.
pub after_decrypt : ℕ → Receiver → ℕ → Option Bytes → Receiver × Bool
after_decrypt total r packet_type none = (r, true)
after_decrypt total r packet_type (some plaintext) =
    elim (take_packet total r.blocks packet_type plaintext) [
      | none ↦ (r, false)
      | some blocks ↦ (record r { blocks = blocks }, true)
    ]

after_gap : Receiver → ℕ → Option (Run LossTracker) → Option (Run Receiver)
after_gap r seq none = none
after_gap r seq (some run) = some (do
  t ← run
  t' ← record_packet t true
  ok (record r { expected_seq = (seq + 1) % 2 ^ 64; loss_tracker = t' }))

module _ (a : Aead) (key : Bytes) (c : FecConfig) where
  opened : ℕ → ℕ → Bytes → Option (Run Receiver) → Option (Run (Receiver × Bool))
  unfolding after_decrypt
  opened packet_type seq ciphertext none = none
  opened packet_type seq ciphertext (some run) =
      some (do
        r ← run
        ok (after_decrypt (total_shards c) r packet_type (decrypt a key seq ciphertext)))

  receive_header : Receiver → ℕ → Bytes → Run (ℕ × ℕ × ℕ) → Option (Run (Receiver × Bool))
  unfolding opened after_gap
  receive_header r len buf panic = some panic
  receive_header r len buf (ok (packet_type, seq, payload_len)) =
      let whole =
        opened packet_type seq (take payload_len (drop header_size buf))
          (after_gap r seq (catch_up (2 ^ 64) r.expected_seq seq r.loss_tracker)) in
      if ltb len (header_size + payload_len) then some (ok (r, true)) else whole

  -- One round; `none` if the loop over the gap needs more than 2 ^ 64 rounds.
  unfoldable pub receive_round : Receiver → ℕ → Bytes → Option (Run (Receiver × Bool))
  unfolding receive_header
  receive_round r len buf =
      if ltb len header_size
      then some (ok (r, true))
      else receive_header r len buf (decode_header buf)

  -- The loop, until the test is over or nothing arrives any more.
  unfoldable pub receive_loop : Receiver → Bytes → List Arrival → Option (Run Receiver)
  receive_loop r buf [] = some (ok r)
  receive_loop r buf (timeout ∷ arrivals) = some (ok r)
  receive_loop r buf (failed ∷ arrivals) = receive_loop r buf arrivals
  receive_loop r buf (datagram from bytes ∷ arrivals) =
      elim (receive_round r (received_len buf bytes) (recv_into buf bytes)) [
        | none ↦ none
        | some panic ↦ some panic
        | some (ok (r', true)) ↦ receive_loop r' (recv_into buf bytes) arrivals
        | some (ok (r', false)) ↦ some (ok r')
      ]

pub record BlockResult : Type 0 where
  pub success : Bool
  pub shards_lost : ℕ

abbrev pub lost : List (Option Bytes) → ℕ
lost [] = 0
lost (none ∷ cells) = suc (lost cells)
lost (some shard ∷ cells) = lost cells

-- The loop over the blocks behind the receive loop, which looks at each block once.
unfoldable pub block_results : ReedSolomon → FecConfig → Blocks → ℕ → ℕ → Run (List BlockResult)
block_results rs c blocks block_idx zero = ok []
block_results rs c blocks block_idx (suc n) =
    let cells = cells_or_new (total_shards c) (lookup block_idx blocks) in
    do
      encoder ← Fec.new_encoder rs c
      let result : BlockResult = record {
        success = is_some (Fec.reconstruct rs encoder cells);
        shards_lost = lost cells;
      }
      results ← block_results rs c blocks (suc block_idx) n
      ok (result ∷ results)

abbrev pub new_receiver : Receiver
new_receiver = record { expected_seq = 0; loss_tracker = Fec.new 1000; blocks = [] }

-- `run_receiver`, but for the loss rate that it prints.
unfoldable pub run_receiver :
    Aead → ReedSolomon → Bytes → FecConfig → ℕ → List Arrival → Option (Run (List BlockResult))
run_receiver a rs key c expected_blocks arrivals =
    elim (receive_loop a key c new_receiver (replicate 2048 0) arrivals) [
      | none ↦ none
      | some panic ↦ some panic
      | some (ok r) ↦ some (block_results rs c r.blocks 0 (expected_blocks % 2 ^ 32))
    ]

-- The counters of `main`.
pub record Summary : Type 0 where
  pub recovered : ℕ
  pub failed_blocks : ℕ
  pub total_shards_lost : ℕ

unfoldable pub summarize : Summary → List BlockResult → Summary
summarize s [] = s
summarize s (r ∷ results) =
    summarize
      (record {
        recovered = if r.success then s.recovered + 1 else s.recovered;
        failed_blocks = if r.success then s.failed_blocks else s.failed_blocks + 1;
        total_shards_lost = s.total_shards_lost + r.shards_lost;
      })
      results
