-- ===== src/Relay/Tunnel/Buffer.antt =====
-- src/relay/tunnel.rs: the receive buffer is reused, and what it held before has no effect.
use entrouter_line.Base.{
  ℕ, ◌+◌, ◌≤◌, ◌<◌, ◌≡◌, refl, sym, ap, ◌∙◌, ◌∷◌, ◌++◌, ok, >>=_congr, Bytes, length, take, drop,
  ltb, le→ltb, nat_eq, arith, length-take, length-drop, length-append, take_all, take-append_add,
  take-append_le, drop-append_le, Bool-cases, inl, inr,
}
use entrouter_line.Relay.Crypto.{Aead}
use entrouter_line.Relay.Wire.{decode_header, header_size}
use entrouter_line.Relay.Tunnel.{Peers, received_len, recv_into, receive_one, judge}

-- A header is read from the first 11 bytes.
pub decode_header-append :
    (front rest : Bytes)
    → header_size ≤ length front
    → decode_header (front ++ rest) ≡ decode_header front
unfolding decode_header
decode_header-append (b0 ∷ b1 ∷ b2 ∷ b3 ∷ b4 ∷ b5 ∷ b6 ∷ b7 ∷ b8 ∷ b9 ∷ b10 ∷ front) rest h = refl
decode_header-append _ rest h = absurd (omega arith)

pub take-drop-append :
    (front rest : Bytes) (i n : ℕ)
    → i + n ≤ length front
    → take n (drop i (front ++ rest)) ≡ take n (drop i front)
take-drop-append front rest i n h =
    ap (take n) (drop-append_le front rest i (omega arith))
    ∙ take-append_le (drop i front) rest n (omega (arith, length-drop i front))

judge-front :
    (a : Aead) (peers : Peers) (from len : ℕ) (front rest : Bytes) (h : ℕ × ℕ × ℕ)
    → length front ≡ len
    → judge a peers from len (front ++ rest) h ≡ judge a peers from len front h
unfolding judge
judge-front a peers from len front rest (t, seq, n) e =
    elim (Bool-cases (ltb len (header_size + n))) [
      | inl cut ↦ rw cut
      | inr whole ↦
          let fits : header_size + n ≤ length front = ground (arith, whole) in
          rw (whole, take-drop-append front rest header_size n fits)
    ]

-- A round sees only the bytes of the datagram.
pub receive_one-front :
    (a : Aead) (peers : Peers) (from len : ℕ) (front rest : Bytes)
    → length front ≡ len
    → receive_one a peers from len (front ++ rest) ≡ receive_one a peers from len front
unfolding receive_one
receive_one-front a peers from len front rest e = elim (Bool-cases (ltb len header_size)) [
  | inl less ↦ rw less
  | inr more ↦
      let long : header_size ≤ length front = ground (arith, more) in
      rw (more, decode_header-append front rest long)
        (>>=_congr (decode_header front) _ _
          (λ h. ap ok (judge-front a peers from len front rest h e)))
]

-- What becomes of a datagram does not depend on what the receive buffer held before: two buffers of
-- one length give the same outcome, whatever the datagram, its sender and the peers.
pub receive_one-buffer :
    (a : Aead) (peers : Peers) (from : ℕ) (buf old bytes : Bytes)
    → length buf ≡ length old
    → receive_one a peers from (received_len buf bytes) (recv_into buf bytes)
      ≡ receive_one a peers from (received_len old bytes) (recv_into old bytes)
receive_one-buffer a peers from buf old bytes e =
    let n = received_len buf bytes in
    let same : received_len old bytes ≡ n = omega arith in
    let size : length (take n bytes) ≡ n = omega (arith, length-take n bytes) in
    rw same (
      receive_one-front a peers from n (take n bytes) (drop n buf) size
      ∙ sym (receive_one-front a peers from n (take n bytes) (drop n old) size))

-- A round, from the header that it reads.
pub receive_one-judge :
    (a : Aead) (peers : Peers) (from len : ℕ) (buf : Bytes) {h : ℕ × ℕ × ℕ}
    → header_size ≤ len
    → decode_header buf ≡ ok h
    → receive_one a peers from len buf ≡ ok (judge a peers from len buf h)
unfolding receive_one
receive_one-judge a peers from len buf long e = rw (le→ltb len header_size long, e)

-- A datagram that fits into the buffer is seen whole.
pub receive_one-fits :
    (a : Aead) (peers : Peers) (from : ℕ) (buf frame : Bytes)
    → length frame ≤ length buf
    → receive_one a peers from (received_len buf frame) (recv_into buf frame)
      ≡ receive_one a peers from (length frame) frame
receive_one-fits a peers from buf frame h =
    let n = length frame in
    let same : received_len buf frame ≡ n = omega arith in
    rw (same, take_all frame n (omega arith))
      (receive_one-front a peers from n frame (drop n buf) refl)

-- A datagram that does not fit is cut to the length of the buffer.
pub receive_one-cut :
    (a : Aead) (peers : Peers) (from n : ℕ) (buf front back : Bytes)
    → length front + n ≡ length buf
    → n < length back
    → receive_one a peers from (received_len buf (front ++ back)) (recv_into buf (front ++ back))
      ≡ receive_one a peers from (length front + n) (front ++ take n back)
receive_one-cut a peers from n buf front back e h =
    let m = length front + n in
    let whole = length-append front back in
    let same : received_len buf (front ++ back) ≡ m = omega (arith, whole) in
    let size : length (front ++ take n back) ≡ m =
      omega (arith, length-append front (take n back), length-take n back) in
    rw (same, take-append_add front back n m refl)
      (receive_one-front a peers from m (front ++ take n back) (drop m buf) size)
