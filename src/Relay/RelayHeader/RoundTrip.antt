-- ===== src/Relay/RelayHeader/RoundTrip.antt =====
-- src/relay/forwarder.rs: the relay header, written and read.
use entrouter_line.Base.{
  ℕ, zero, suc, ◌+◌, ◌/◌, ◌%◌, ◌^◌, min, ◌≤◌, ◌<◌, ◌≡◌, refl, sym, ap, ◌∙◌, inl, inr, [], ◌∷◌, ◌++◌,
  none, some, some-injective, none≢some, Bytes, IsByte, All, to_le, from_le, from_le-to_le,
  to_le-from_le, length, length-append, length-take, take, drop, take_all, take-append_eq,
  drop-append_eq, take-append-drop, ltb, le→ltb, lt→ltb, if◌then◌else◌, arith, Bool-cases,
}
use native.Mathlib.Decide.{dec_lt}
use entrouter_line.Relay.RelayHeader.{is_utf8, encode_relay_header, decode_relay_header}

take-min : (n : ℕ) (xs : Bytes) → take (min (length xs) n) xs ≡ take n xs
take-min zero xs = let z : min (length xs) 0 ≡ 0 = omega arith in ap (λ k. take k xs) z
take-min (suc n) [] = let z : min 0 (suc n) ≡ 0 = omega arith in ap (λ k. take k []) z
take-min (suc n) (x ∷ xs) =
    let s : min (length (x ∷ xs)) (suc n) ≡ suc (min (length xs) n) = omega arith in
    ap (λ k. take k (x ∷ xs)) s ∙ ap (λ t. x ∷ t) (take-min n xs)

-- Behind the first five bytes.
decode_relay_header-cons :
    (a b c d n : ℕ) (rest : Bytes)
    → decode_relay_header (a ∷ b ∷ c ∷ d ∷ n ∷ rest) ≡ (
        if ltb (length rest) n
        then none
        else if is_utf8 (take n rest)
        then some (from_le (a ∷ b ∷ c ∷ d ∷ []), take n rest, drop n rest)
        else none)
unfolding decode_relay_header
decode_relay_header-cons a b c d n rest = ground arith

-- `decode_relay_header` reads back what `encode_relay_header` writes, with the name of the
-- destination cut to 255 bytes; it refuses it exactly if the cut name is not UTF-8.
pub decode_relay_header-encode :
    (flow_id : ℕ) (dest payload : Bytes)
    → flow_id < 2 ^ 32
    → decode_relay_header (encode_relay_header flow_id dest payload)
      ≡ (if is_utf8 (take 255 dest) then some (flow_id, take 255 dest, payload) else none)
unfolding encode_relay_header
decode_relay_header-encode flow_id dest payload small =
    let n = min (length dest) 255 in
    let name = take n dest in
    let size : length name ≡ n = omega (arith, length-take n dest) in
    let total : length (name ++ payload) ≡ n + length payload =
      omega (arith, size, length-append name payload) in
    decode_relay_header-cons (flow_id % 256) (flow_id / 256 % 256) (flow_id / 256 / 256 % 256)
      (flow_id / 256 / 256 / 256 % 256) n (name ++ payload)
    ∙ rw
        (
          le→ltb (length (name ++ payload)) n (omega (arith, total)),
          take-append_eq name payload n size,
          drop-append_eq name payload n size,
          take-min 255 dest,
          from_le-to_le 4 flow_id small,
        )
        refl

decode_relay_header_short : (buf : Bytes) → length buf < 5 → decode_relay_header buf ≡ none
unfolding decode_relay_header
decode_relay_header_short buf h = rw (lt→ltb (length buf) 5 h)

-- The parts of what is decoded.
decode_relay_header-parts :
    (a b c d n : ℕ) (rest dest payload : Bytes) (flow_id : ℕ)
    → decode_relay_header (a ∷ b ∷ c ∷ d ∷ n ∷ rest) ≡ some (flow_id, dest, payload)
    → (n ≤ length rest)
      × (from_le (a ∷ b ∷ c ∷ d ∷ []) ≡ flow_id)
      × (take n rest ≡ dest)
      × (drop n rest ≡ payload)
decode_relay_header-parts a b c d n rest dest payload flow_id e =
    let e' = sym (decode_relay_header-cons a b c d n rest) ∙ e in
    let id = from_le (a ∷ b ∷ c ∷ d ∷ []) in
    elim (dec_lt (length rest) n) [
      | yes less ↦ absurd (none≢some (sym (rw (lt→ltb (length rest) n less)) ∙ e'))
      | no more ↦ elim (Bool-cases (is_utf8 (take n rest))) [
        | inl good ↦
            let fits = le→ltb (length rest) n (omega arith) in
            let run : decode_relay_header (a ∷ b ∷ c ∷ d ∷ n ∷ rest)
                ≡ some (id, take n rest, drop n rest) =
              decode_relay_header-cons a b c d n rest ∙ rw (fits, good) refl in
            let same = some-injective (sym run ∙ e) in
            (
              omega arith,
              ap (λ (t : ℕ × Bytes × Bytes). t.0) same,
              ap (λ (t : ℕ × Bytes × Bytes). t.1) same,
              ap (λ (t : ℕ × Bytes × Bytes). t.2) same,
            )
        | inr bad ↦
            let fits = le→ltb (length rest) n (omega arith) in
            let run : decode_relay_header (a ∷ b ∷ c ∷ d ∷ n ∷ rest) ≡ none =
              decode_relay_header-cons a b c d n rest ∙ rw (fits, bad) refl in
            absurd (none≢some (sym run ∙ e))
      ]
    ]

-- What is decoded is, written again, the same bytes.
pub encode-decode_relay_header :
    (buf dest payload : Bytes) (flow_id : ℕ)
    → All IsByte buf
    → decode_relay_header buf ≡ some (flow_id, dest, payload)
    → encode_relay_header flow_id dest payload ≡ buf
unfolding encode_relay_header
encode-decode_relay_header (a ∷ b ∷ c ∷ d ∷ n ∷ rest) dest payload flow_id bytes e =
    let (fits, flow, name, body) =
      decode_relay_header-parts a b c d n rest dest payload flow_id e in
    let (is_a, (is_b, (is_c, (is_d, (is_n, more))))) = bytes in
    let whole : to_le 4 (from_le (a ∷ b ∷ c ∷ d ∷ [])) ≡ a ∷ b ∷ c ∷ d ∷ [] =
      to_le-from_le (a ∷ b ∷ c ∷ d ∷ []) (is_a, (is_b, (is_c, (is_d, tt)))) in
    let size : length dest ≡ n = ap length (sym name) ∙ omega (arith, length-take n rest) in
    let m : min (length dest) 255 ≡ n = omega (arith, size, is_n) in
    let back : take n dest ++ payload ≡ rest =
      rw (take_all dest n (omega (arith, size)), sym name, sym body) (take-append-drop n rest) in
    let k = min (length dest) 255 in
    ap (λ f. to_le 4 f ++ (k ∷ (take k dest ++ payload))) (sym flow)
    ∙ ap (λ l. l ++ (k ∷ (take k dest ++ payload))) whole
    ∙ ap (λ j. a ∷ b ∷ c ∷ d ∷ j ∷ (take j dest ++ payload)) m
    ∙ ap (λ t. a ∷ b ∷ c ∷ d ∷ n ∷ t) back
encode-decode_relay_header buf dest payload flow_id bytes e =
    absurd (none≢some (sym (decode_relay_header_short buf (omega arith)) ∙ e))
