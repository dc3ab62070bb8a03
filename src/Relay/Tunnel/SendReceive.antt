-- ===== src/Relay/Tunnel/SendReceive.antt =====
-- src/relay/tunnel.rs: what `send` puts on the wire, through `receive_loop_multi`.
use entrouter_line.Base.{
  ℕ, ◌+◌, ◌-◌, ◌%◌, ◌^◌, ◌≤◌, ◌<◌, ◌≡◌, refl, ap, ◌∙◌, ◌++◌, some, ok, Bytes, length, take, drop,
  lt→ltb, le→ltb, lookup, nat_eq, arith, length-drop, length-append, take_all, drop-append_eq,
  replicate, length-replicate,
}
use native.Mathlib.Nat.{mod-eq_of_lt}
use entrouter_line.Relay.Crypto.{Aead, Seals, encrypt, decrypt}
use entrouter_line.Relay.Crypto.Nonce.{decrypt-encrypt}
use entrouter_line.Relay.Wire.{decode_header, header_size, auth_tag_size, max_payload, max_packet}
use entrouter_line.Relay.Wire.RoundTrip.{
  header, encode_header-header, decode_header-header, copy_into-rest,
}
use entrouter_line.Relay.Tunnel.{
  Tunnel, Socket, build_frame, send, truncated, received, Peers, received_len, recv_into,
  receive_one, judge,
}
use entrouter_line.Relay.Tunnel.Buffer.{receive_one-fits, receive_one-cut, receive_one-judge}

-- The frame is the header and the sealed payload.
pub build_frame-header :
    (a : Aead) (key : Bytes) (seq t : ℕ) (payload c : Bytes)
    → encrypt a key seq payload ≡ ok c
    → build_frame a key seq t payload ≡ ok (header t seq (length c % 2 ^ 16) ++ c)
unfolding build_frame
build_frame-header a key seq t payload c e =
    let zeros : Bytes = replicate (header_size + length c) 0 in
    let n = length c % 2 ^ 16 in
    let size = length-replicate {A = ℕ} (header_size + length c) 0 in
    rw (e, encode_header-header zeros t seq n (omega (arith, size)))
      (copy_into-rest (header t seq n) (drop header_size zeros) c
        (omega (arith, length-drop header_size zeros, size)))

module _ (a : Aead) (peers : Peers) (from : ℕ) (id key : Bytes) (seq t : ℕ) (c : Bytes)
    (known : lookup from peers ≡ some (id, key)) (seq_small : seq < 2 ^ 64)
    (c_small : length c < 2 ^ 16) where
  head : Bytes
  head = header t seq (length c % 2 ^ 16)

  length-head : length head ≡ header_size
  unfolding head
  length-head = refl

  decoded : (rest : Bytes) → decode_header (head ++ rest) ≡ ok (t, seq, length c)
  unfolding head
  decoded rest =
      rw (mod-eq_of_lt {n = length c} {m = 2 ^ 16} c_small)
        (decode_header-header t seq (length c) rest seq_small c_small)

  -- A whole frame is decrypted.
  receive_whole :
      (payload : Bytes)
      → decrypt a key seq c ≡ some payload
      → receive_one a peers from (header_size + length c) (head ++ c)
        ≡ ok (received id (record { packet_type = t; seq = seq; payload = payload; from = from }))
  unfolding judge
  receive_whole payload e =
      let len = header_size + length c in
      receive_one-judge a peers from len (head ++ c) (omega arith) (decoded c)
      ∙ rw (
        le→ltb len len (omega arith),
        drop-append_eq head c header_size length-head,
        take_all c (length c) (omega arith),
        known,
        e,
      )

  -- A frame that is cut is dropped.
  receive_cut :
      (n : ℕ) (rest : Bytes)
      → n < length c
      → receive_one a peers from (header_size + n) (head ++ rest) ≡ ok truncated
  unfolding judge
  receive_cut n rest less =
      receive_one-judge a peers from (header_size + n) (head ++ rest) (omega arith) (decoded rest)
      ∙ rw (lt→ltb (header_size + n) (header_size + length c) (omega arith))

  -- Through a buffer: a frame that fits, and one that does not.
  receive_fits :
      (buf payload : Bytes)
      → header_size + length c ≤ length buf
      → decrypt a key seq c ≡ some payload
      → receive_one a peers from (received_len buf (head ++ c)) (recv_into buf (head ++ c))
        ≡ ok (received id (record { packet_type = t; seq = seq; payload = payload; from = from }))
  receive_fits buf payload fits e =
      let size : length (head ++ c) ≡ header_size + length c =
        omega (arith, length-append head c, length-head) in
      receive_one-fits a peers from buf (head ++ c) (omega (arith, size))
      ∙ ap (λ n. receive_one a peers from n (head ++ c)) size
      ∙ receive_whole payload e

  receive_over :
      (n : ℕ) (buf : Bytes)
      → header_size + n ≡ length buf
      → n < length c
      → receive_one a peers from (received_len buf (head ++ c)) (recv_into buf (head ++ c))
        ≡ ok truncated
  receive_over n buf room less =
      receive_one-cut a peers from n buf head c (omega (arith, length-head)) less
      ∙ ap (λ m. receive_one a peers from (m + n) (head ++ take n c)) length-head
      ∙ receive_cut n (take n c) less

-- Over a cipher that keeps its promise, `send` of a payload gives a frame under the next sequence
-- number. Into a receive buffer of `MAX_PACKET` bytes, from the address of a peer with the same key,
-- the frame of a payload of at most `MAX_PAYLOAD` bytes is received with its type, number and
-- payload; that of a longer one (whose sealed length still is a `u16`) is cut by the buffer and
-- dropped as truncated.
pub send-receive_one :
    (a : Aead) (socket : Socket) (tun : Tunnel) (t : ℕ) (payload : Bytes) (peers : Peers) (from : ℕ)
    (id : Bytes) (buf : Bytes)
    → Seals a
    → tun.tx_seq < 2 ^ 64
    → length payload + auth_tag_size < 2 ^ 16
    → lookup from peers ≡ some (id, tun.key)
    → length buf ≡ max_packet
    → (u : Tunnel) × (frame : Bytes) × (send a socket tun t payload
        ≡ ok (u, frame, socket tun.peer_addr frame))
      × (u.tx_seq ≡ (tun.tx_seq + 1) % 2 ^ 64)
      × (length payload ≤ max_payload
          → receive_one a peers from (received_len buf frame) (recv_into buf frame)
            ≡ ok (
                received id
                  (record { packet_type = t; seq = tun.tx_seq; payload = payload; from = from })))
      × (max_payload < length payload
          → receive_one a peers from (received_len buf frame) (recv_into buf frame) ≡ ok truncated)
unfolding send head
send-receive_one a socket tun t payload peers from id buf s small_seq small known room =
    let (c, sealed, size, opens) = decrypt-encrypt a tun.key tun.tx_seq payload s (omega arith) in
    let frame = header t tun.tx_seq (length c % 2 ^ 16) ++ c in
    let c_small : length c < 2 ^ 16 = omega (arith, size) in
    (
      record tun { tx_seq = (tun.tx_seq + 1) % 2 ^ 64 },
      frame,
      rw (build_frame-header a tun.key tun.tx_seq t payload c sealed),
      refl,
      λ fits.
          receive_fits a peers from id tun.key tun.tx_seq t c known small_seq c_small buf payload
            (omega (arith, size)) opens,
      λ over.
          receive_over a peers from id tun.key tun.tx_seq t c known small_seq c_small
            (max_packet - header_size) buf (omega arith) (omega (arith, size)),
    )
