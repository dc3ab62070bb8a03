-- ===== src/Relay/Tunnel.antt =====
-- src/relay/tunnel.rs: encrypted datagrams to a peer, and the two receive loops.
-- A socket address is a number. The socket tells for each datagram whether `send_to` succeeds;
-- what arrives is a sequence of events.
pub mod SendReceive
pub mod Buffer
pub mod Gaps
pub mod Blocks
mod Tests
use entrouter_line.Base.{
  ℕ, zero, suc, ◌+◌, ◌-◌, ◌*◌, ◌/◌, ◌%◌, ◌^◌, ◌≡◌, min, Bool, true, false, List, [], ◌∷◌, ◌++◌, map,
  Option, none, some, Run, ok, panic, ◌>>=◌, ◌>>◌, assert, Bytes, length, take, drop, replicate,
  ltb, leb, ◌==◌, not, chunks, if◌then◌else◌, lookup, nat_eq,
}
use entrouter_line.Relay.Crypto.{Aead, encrypt, decrypt}
use entrouter_line.Relay.Fec
use entrouter_line.Relay.Fec.{FecConfig, LossTracker, ReedSolomon, new_encoder, record_packet}
use entrouter_line.Relay.Wire.{
  copy_into, encode_header, decode_header, header_size, max_packet, packet_data, packet_parity,
}

pub record Tunnel : Type 0 where
  pub peer_addr : ℕ
  pub key : Bytes
  pub tx_seq : ℕ

abbrev pub new_tunnel : ℕ → Bytes → Tunnel
new_tunnel peer_addr key = record { peer_addr = peer_addr; key = key; tx_seq = 0 }

pub record ReceivedPacket : Type 0 where
  pub packet_type : ℕ
  pub seq : ℕ
  pub payload : Bytes
  pub from : ℕ

-- Whether a datagram to an address is sent.
abbrev pub Socket : Type 0
Socket = ℕ → Bytes → Bool

-- The frame that `send` builds under a sequence number.
unfoldable pub build_frame : Aead → Bytes → ℕ → ℕ → Bytes → Run Bytes
build_frame a key seq packet_type payload = do
  ciphertext ← encrypt a key seq payload
  frame ←
      encode_header (replicate (header_size + length ciphertext) 0) packet_type seq
        (length ciphertext % 2 ^ 16)
  copy_into header_size ciphertext frame

-- The sequence number is taken first, so that a failed `send_to` uses it up too.
unfoldable pub send : Aead → Socket → Tunnel → ℕ → Bytes → Run (Tunnel × Bytes × Bool)
send a socket t packet_type payload = do
  frame ← build_frame a t.key t.tx_seq packet_type payload
  ok (record t { tx_seq = (t.tx_seq + 1) % 2 ^ 64 }, frame, socket t.peer_addr frame)

-- `Vec::resize(n, 0)`.
abbrev pub resize : ℕ → Bytes → Bytes
resize n s = take n s ++ replicate (n - length s) 0

-- `div_ceil`, and the chunks of that size; a size of 0 panics.
unfoldable pub split_data : ℕ → Bytes → Run (List Bytes)
split_data data_shards payload =
    let size = (length payload + data_shards - 1) / data_shards in
    do
      assert (not (size == 0))
      let shards = map (resize size) (chunks size payload)
      ok (shards ++ replicate (data_shards - length shards) (replicate size 0))

module _ (a : Aead) (socket : Socket) where
  -- The loop over the shards ends at the first that is not sent.
  unfoldable pub send_shards :
      FecConfig → ℕ → Tunnel → List Bytes → Run (Tunnel × List Bytes × Bool)
  send_shards c i t [] = ok (t, [], true)
  send_shards c i t (shard ∷ shards) =
      let ptype = if ltb i c.data_shards then packet_data else packet_parity in
      send a socket t ptype shard >>= λ r.
      let rest = send_shards c (suc i) r.0 shards >>= λ q. ok (q.0, r.1 ∷ q.1, q.2) in
      if r.2 then rest else ok (r.0, r.1 ∷ [], false)

  unfoldable pub send_with_fec :
      ReedSolomon → FecConfig → Tunnel → Bytes → Run (Tunnel × List Bytes × Bool)
  send_with_fec rs c t payload = do
    encoder ← new_encoder rs c
    shards ← split_data c.data_shards payload
    encoded ← Fec.encode rs encoder shards
    send_shards c 0 t encoded

-- `recv_from` into the buffer: a datagram that does not fit is cut.
abbrev pub received_len : Bytes → Bytes → ℕ
received_len buf datagram = min (length datagram) (length buf)

abbrev pub recv_into : Bytes → Bytes → Bytes
recv_into buf datagram = let len = received_len buf datagram in take len datagram ++ drop len buf

-- What becomes of one datagram.
pub data Outcome : Type 0 where
  short truncated unknown_peer undecryptable : Outcome
  received : Bytes → ReceivedPacket → Outcome

abbrev pub Peers : Type 0
Peers = List (ℕ × (Bytes × Bytes))

opened : Bytes → ℕ → ℕ → ℕ → Option Bytes → Outcome
opened peer_id packet_type seq from none = undecryptable
opened peer_id packet_type seq from (some plaintext) =
    received peer_id
      (record { packet_type = packet_type; seq = seq; payload = plaintext; from = from })

module _ (a : Aead) where
  accept : ℕ → ℕ → ℕ → Bytes → Option (Bytes × Bytes) → Outcome
  unfolding opened
  accept packet_type seq from ciphertext none = unknown_peer
  accept packet_type seq from ciphertext (some (peer_id, key)) =
      opened peer_id packet_type seq from (decrypt a key seq ciphertext)

  pub judge : Peers → ℕ → ℕ → Bytes → ℕ × ℕ × ℕ → Outcome
  unfolding accept
  judge peers from len buf (packet_type, seq, payload_len) =
      if ltb len (header_size + payload_len)
      then truncated
      else accept packet_type seq from (take payload_len (drop header_size buf)) (lookup from peers)

  -- One round of `receive_loop_multi`, over the buffer behind `recv_from`.
  unfoldable pub receive_one : Peers → ℕ → ℕ → Bytes → Run Outcome
  unfolding judge
  receive_one peers from len buf =
      if ltb len header_size
      then ok short
      else decode_header buf >>= λ h. ok (judge peers from len buf h)

-- A datagram from an address, or an error of the socket.
pub data Recv : Type 0 where
  failed : Recv
  datagram : ℕ → Bytes → Recv

deliver_to : Bool → Outcome → List (Bytes × ReceivedPacket) × Bool
deliver_to channel_open (received peer_id packet) =
    if channel_open then ((peer_id, packet) ∷ [], true) else ([], false)
deliver_to channel_open _ = ([], true)

module _ (a : Aead) (peers : Peers) where
  -- The loop: the packets that are passed on. With each event comes whether the channel is still
  -- open; the loop ends at the first packet that finds it closed.
  unfoldable pub receive_loop_multi :
      Bytes → List (Recv × Bool) → Run (List (Bytes × ReceivedPacket))
  unfolding deliver_to
  receive_loop_multi buf [] = ok []
  receive_loop_multi buf ((failed, channel_open) ∷ events) = receive_loop_multi buf events
  receive_loop_multi buf ((datagram from bytes, channel_open) ∷ events) =
      let buf' = recv_into buf bytes in
      receive_one a peers from (received_len buf bytes) buf' >>= λ outcome.
      let sent = deliver_to channel_open outcome in
      let rest = receive_loop_multi buf' events in
      if sent.1 then (rest >>= λ more. ok (sent.0 ++ more)) else ok []

-- The loop over the sequence numbers that were skipped, on fuel; `none` means that it ran out.
unfoldable pub catch_up : ℕ → ℕ → ℕ → LossTracker → Option (Run LossTracker)
catch_up zero expected_seq seq t = none
catch_up (suc fuel) expected_seq seq t = elim (expected_seq == seq) [
  | true ↦ some (ok t)
  | false ↦ elim (record_packet t false) [
    | ok t' ↦ catch_up fuel ((expected_seq + 1) % 2 ^ 64) seq t'
    | panic ↦ some panic
  ]
]

-- What `receive_loop` keeps beside its buffer.
pub record Watch : Type 0 where
  pub expected_seq : ℕ
  pub loss_tracker : LossTracker

-- The rest of a round, behind the loop over the gap: `expected_seq` is now `seq`.
abbrev settle : LossTracker → ℕ → Outcome → Run (Watch × Outcome)
settle t seq undecryptable = do
  t' ← record_packet t false
  ok (record { expected_seq = (seq + 1) % 2 ^ 64; loss_tracker = t' }, undecryptable)
settle t seq outcome = ok (record { expected_seq = (seq + 1) % 2 ^ 64; loss_tracker = t }, outcome)

abbrev after_gap : ℕ → Outcome → Option (Run LossTracker) → Option (Run (Watch × Outcome))
after_gap seq outcome none = none
after_gap seq outcome (some r) = some (do t ← r; t' ← record_packet t true; settle t' seq outcome)

module _ (a : Aead) (key : Bytes) where
  -- A frame that is whole: the gap before it, itself, and its decryption.
  unfoldable pub watch_frame : Watch → ℕ → ℕ → ℕ → Bytes → Option (Run (Watch × Outcome))
  unfolding opened
  watch_frame w packet_type seq from ciphertext =
      after_gap seq (opened [] packet_type seq from (decrypt a key seq ciphertext))
        (catch_up (2 ^ 64) w.expected_seq seq w.loss_tracker)

  watch_header : Watch → ℕ → ℕ → Bytes → Run (ℕ × ℕ × ℕ) → Option (Run (Watch × Outcome))
  unfolding watch_frame
  watch_header w from len buf panic = some panic
  watch_header w from len buf (ok (packet_type, seq, payload_len)) =
      let whole = watch_frame w packet_type seq from (take payload_len (drop header_size buf)) in
      if ltb len (header_size + payload_len)
      then some
          (do t ← record_packet w.loss_tracker false; ok (record w { loss_tracker = t }, truncated))
      else whole

  -- One round of `receive_loop`, over the buffer behind `recv_from`; `none` if the loop over the
  -- gap needs more than 2 ^ 64 rounds.
  unfoldable pub receive_watched : Watch → ℕ → ℕ → Bytes → Option (Run (Watch × Outcome))
  unfolding watch_header
  receive_watched w from len buf =
      if ltb len header_size
      then some (ok (w, short))
      else watch_header w from len buf (decode_header buf)
