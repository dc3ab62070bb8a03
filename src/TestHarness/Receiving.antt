-- ===== src/TestHarness/Receiving.antt =====
-- src/bin/test_harness.rs: what the receiver makes of the frames that arrive.
use entrouter_line.Base.{
  ℕ, ◌+◌, ◌/◌, ◌%◌, ◌^◌, ◌≤◌, ◌<◌, ◌≡◌, ◌≢◌, refl, sym, ap, ◌∙◌, false, [], ◌∷◌, ◌++◌, some, ok,
  ok-injective, Bytes, from_le, nat_eq, length, length-append, length-drop, length-take, take, drop,
  take_all, take-append_eq, append_assoc, ltb, le→ltb, ◌==◌, ==_iff, arith,
}
use native.Mathlib.Nat.{mod-eq_of_lt}
use entrouter_line.Relay.Crypto.{Aead, Seals, decrypt}
use entrouter_line.Relay.Crypto.Nonce.{decrypt-encrypt}
use entrouter_line.Relay.Fec.{FecConfig, LossTracker, total_shards}
use entrouter_line.Relay.Fec.Window.{IsTracker}
use entrouter_line.Relay.Tunnel.{build_frame, received_len, recv_into}
use entrouter_line.Relay.Tunnel.Gaps.{catch_up-IsTracker}
use entrouter_line.Relay.Tunnel.SendReceive.{build_frame-header}
use entrouter_line.Relay.Wire.{packet_control, header_size}
use entrouter_line.Relay.Wire.RoundTrip.{header, decode_header-header}
use entrouter_line.TestHarness.{
  Blocks, Receiver, prefixed, store_shard, take_packet, after_decrypt, after_gap, opened,
  receive_header, receive_round,
}

-- The numbers in front of a shard are read back.
pub take_packet-prefixed :
    (total : ℕ) (blocks : Blocks) (t j i : ℕ) (shard : Bytes)
    → t ≢ packet_control
    → j < 2 ^ 32
    → i < 2 ^ 16
    → take_packet total blocks t (prefixed j i shard) ≡ some (store_shard total blocks j i shard)
unfolding take_packet
take_packet-prefixed total blocks t j i shard other small_j small_i =
    let off : (t == packet_control) ≡ false = ground (arith, ==_iff t packet_control) in
    let j_mod : j % 2 ^ 32 ≡ j = mod-eq_of_lt {n = j} {m = 2 ^ 32} small_j in
    let i_mod : i % 2 ^ 16 ≡ i = mod-eq_of_lt {n = i} {m = 2 ^ 16} small_i in
    let block : from_le (
          (j % 2 ^ 32 / 256 ^ 0 % 256)
          ∷ (j % 2 ^ 32 / 256 ^ 1 % 256)
          ∷ (j % 2 ^ 32 / 256 ^ 2 % 256)
          ∷ (j % 2 ^ 32 / 256 ^ 3 % 256)
          ∷ [])
        ≡ j =
      omega (arith, j_mod) in
    let index : from_le ((i % 2 ^ 16 / 256 ^ 0 % 256) ∷ (i % 2 ^ 16 / 256 ^ 1 % 256) ∷ []) ≡ i =
      omega (arith, i_mod) in
    let long : ltb (length (prefixed j i shard)) 6 ≡ false =
      le→ltb (length (prefixed j i shard)) 6 (omega arith) in
    rw (off, block, index, long) refl

module _ (a : Aead) (key : Bytes) (c : FecConfig) where
  abbrev frame_of : ℕ → ℕ → Bytes → Bytes
  frame_of t seq sealed = header t seq (length sealed % 2 ^ 16) ++ sealed

  -- A round over a whole frame, at the start of a buffer.
  receive_round-front :
      (r : Receiver) (seq t : ℕ) (payload sealed rest : Bytes)
      → seq < 2 ^ 64
      → length sealed < 2 ^ 16
      → decrypt a key seq sealed ≡ some payload
      → r.expected_seq < 2 ^ 64
      → IsTracker r.loss_tracker
      → (tracker : LossTracker) × IsTracker tracker
        × (receive_round a key c r
              (header_size + length sealed)
              (header t seq (length sealed % 2 ^ 16) ++ (sealed ++ rest))
            ≡ some (
                ok (
                  after_decrypt
                    (total_shards c)
                    (record r { expected_seq = (seq + 1) % 2 ^ 64; loss_tracker = tracker })
                    t
                    (some payload))))
  unfolding receive_round receive_header opened after_gap
  receive_round-front r seq t payload sealed rest small_s small opens small_e v =
      let (u, u', gap, counted, v') =
        catch_up-IsTracker r.expected_seq seq r.loss_tracker small_e small_s v in
      let n = length sealed in
      let whole : n % 2 ^ 16 ≡ n = mod-eq_of_lt {n = n} {m = 2 ^ 16} small in
      let head = header t seq n in
      (
        u',
        v',
        rw
            (
              whole,
              le→ltb (header_size + n) header_size (omega arith),
              decode_header-header t seq n (sealed ++ rest) small_s small,
              le→ltb (header_size + n) (header_size + n) (omega arith),
              take-append_eq sealed rest n refl,
              gap,
              counted,
              opens,
            )
            refl,
      )

  -- A whole frame that fits into the buffer is decrypted.
  pub receive_round-frame :
      (r : Receiver) (buf : Bytes) (seq t : ℕ) (payload frame : Bytes)
      → Seals a
      → length payload + 27 ≤ length buf
      → length buf ≤ 2 ^ 16
      → seq < 2 ^ 64
      → build_frame a key seq t payload ≡ ok frame
      → r.expected_seq < 2 ^ 64
      → IsTracker r.loss_tracker
      → (tracker : LossTracker) × IsTracker tracker
        × (receive_round a key c r (received_len buf frame) (recv_into buf frame)
            ≡ some (
                ok (
                  after_decrypt
                    (total_shards c)
                    (record r { expected_seq = (seq + 1) % 2 ^ 64; loss_tracker = tracker })
                    t
                    (some payload))))
  receive_round-frame r buf seq t payload frame seals fits room small_s built small_e v =
      let (sealed, e, size, opens) = decrypt-encrypt a key seq payload seals (omega arith) in
      let head = header t seq (length sealed % 2 ^ 16) in
      let same : frame ≡ head ++ sealed =
        ok-injective (sym built ∙ build_frame-header a key seq t payload sealed e) in
      let len : length frame ≡ header_size + length sealed =
        ap length same ∙ length-append head sealed in
      let got : received_len buf frame ≡ length frame = omega (arith, len, size) in
      let rest = drop (length frame) buf in
      let front : recv_into buf frame ≡ head ++ (sealed ++ rest) =
        ap (λ n. take n frame ++ drop n buf) got
        ∙ ap (λ x. x ++ rest) (take_all frame (length frame) (omega arith))
        ∙ ap (λ x. x ++ rest) same
        ∙ append_assoc head sealed rest in
      let (tracker, v', run) =
        receive_round-front r seq t payload sealed rest small_s (omega (arith, size)) opens small_e
          v in
      (
        tracker,
        v',
        ap (λ n. receive_round a key c r n (recv_into buf frame)) (got ∙ len)
            ∙ ap (receive_round a key c r (header_size + length sealed)) front
            ∙ run,
      )

  pub length-recv_into : (buf frame : Bytes) → length (recv_into buf frame) ≡ length buf
  length-recv_into buf frame =
      let len = received_len buf frame in
      omega (
        arith,
        length-append (take len frame) (drop len buf),
        length-take len frame,
        length-drop len buf,
      )
