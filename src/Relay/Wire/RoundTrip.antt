-- ===== src/Relay/Wire/RoundTrip.antt =====
-- src/relay/wire.rs: what `encode_header` writes, and that `decode_header` reads it back.
use entrouter_line.Base.{
  ℕ, ◌+◌, ◌^◌, ◌≤◌, ◌<◌, ◌≡◌, refl, [], ◌∷◌, ◌++◌, ok, panic, Bytes, to_le, from_le-to_le, length,
  length-append, drop, arith, le→leb, take-append_length, length-drop, leb, append-nil, drop_all,
  true,
}
use entrouter_line.Relay.Wire.{copy_into, encode_header, decode_header, header_size}

-- The header as a byte string.
abbrev pub header : ℕ → ℕ → ℕ → Bytes
header packet_type seq payload_len = packet_type ∷ (to_le 8 seq ++ to_le 2 payload_len)

pub encode_header-header :
    (buf : Bytes) (t s l : ℕ)
    → header_size ≤ length buf
    → encode_header buf t s l ≡ ok (header t s l ++ drop header_size buf)
unfolding encode_header
encode_header-header (b0 ∷ b1 ∷ b2 ∷ b3 ∷ b4 ∷ b5 ∷ b6 ∷ b7 ∷ b8 ∷ b9 ∷ b10 ∷ rest) t s l h =
    ground arith
encode_header-header _ t s l h = absurd (omega arith)

pub decode_header-header :
    (t s l : ℕ) (rest : Bytes)
    → s < 2 ^ 64
    → l < 2 ^ 16
    → decode_header (header t s l ++ rest) ≡ ok (t, s, l)
unfolding decode_header
decode_header-header t s l rest hs hl =
    let p = from_le-to_le 8 s hs in let q = from_le-to_le 2 l hl in ground (arith, p, q)

header_short :
    (buf : Bytes) (t s l : ℕ)
    → length buf < header_size
    → (encode_header buf t s l ≡ panic) × (decode_header buf ≡ panic)
unfolding encode_header decode_header
header_short (b0 ∷ b1 ∷ b2 ∷ b3 ∷ b4 ∷ b5 ∷ b6 ∷ b7 ∷ b8 ∷ b9 ∷ b10 ∷ rest) t s l h =
    absurd (omega arith)
header_short _ t s l h = (refl, refl)

-- On a buffer of at least 11 bytes, `encode_header` does not panic, leaves all but the first 11
-- bytes, and `decode_header` reads its three fields back (a `u64` sequence number and a `u16`
-- length). On a shorter buffer both functions panic.
pub header_round_trip :
    (buf : Bytes) (t s l : ℕ)
    → s < 2 ^ 64
    → l < 2 ^ 16
    → (header_size ≤ length buf
        → (out : Bytes) × (encode_header buf t s l ≡ ok out)
          × (drop header_size out ≡ drop header_size buf)
          × (length out ≡ length buf)
          × (decode_header out ≡ ok (t, s, l)))
      × (length buf < header_size → (encode_header buf t s l ≡ panic) × (decode_header buf ≡ panic))
header_round_trip buf t s l hs hl = (
  λ long. (
    header t s l ++ drop header_size buf,
    encode_header-header buf t s l long,
    refl,
    omega (arith, length-drop header_size buf),
    decode_header-header t s l (drop header_size buf) hs hl,
  ),
  header_short buf t s l,
)

-- A write that fills the rest of a buffer.
pub copy_into-rest :
    (front zeros src : Bytes)
    → length zeros ≡ length src
    → copy_into (length front) src (front ++ zeros) ≡ ok (front ++ src)
unfolding copy_into
copy_into-rest front zeros src e =
    let fits : leb (length front + length src) (length (front ++ zeros)) ≡ true =
      le→leb (length front + length src) (length (front ++ zeros))
        (omega (arith, length-append front zeros)) in
    let over : drop (length front + length src) (front ++ zeros) ≡ [] =
      drop_all (front ++ zeros) (length front + length src)
        (omega (arith, length-append front zeros)) in
    rw (fits, take-append_length front zeros, over, append-nil)
