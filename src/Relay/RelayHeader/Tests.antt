-- ===== src/Relay/RelayHeader/Tests.antt =====
-- Runs of the relay header of src/relay/forwarder.rs, and its theorems at inputs.
use entrouter_line.Base.{
  ◌≡◌, refl, true, false, [], ◌∷◌, none, some, Bytes, take, if◌then◌else◌, arith,
}
use entrouter_line.Relay.RelayHeader.{
  continuation, well_formed, is_utf8, encode_relay_header, decode_relay_header,
}
use entrouter_line.Relay.RelayHeader.RoundTrip.{
  decode_relay_header-encode, encode-decode_relay_header,
}

-- A two-byte character, an overlong one, a surrogate, and one cut off.
utf8_cases :
    (is_utf8 (0x73 ∷ 0xC3 ∷ 0xA9 ∷ []) ≡ true)
    × (is_utf8 (0xC0 ∷ 0x80 ∷ []) ≡ false)
    × (is_utf8 (0xED ∷ 0xA0 ∷ 0x80 ∷ []) ≡ false)
    × (is_utf8 (0xF0 ∷ 0x9F ∷ 0x98 ∷ []) ≡ false)
unfolding continuation well_formed
utf8_cases = (refl, refl, refl, refl)

relay_header_dest_length_mismatch :
    decode_relay_header (0 ∷ 0 ∷ 0 ∷ 0 ∷ 10 ∷ 97 ∷ 98 ∷ 99 ∷ []) ≡ none
unfolding decode_relay_header
relay_header_dest_length_mismatch = refl

abbrev name : Bytes
name = 115 ∷ 121 ∷ 100 ∷ []

decode_relay_header-encode_example :
    decode_relay_header (encode_relay_header 42 name (1 ∷ 2 ∷ []))
    ≡ (if is_utf8 (take 255 name) then some (42, take 255 name, 1 ∷ 2 ∷ []) else none)
decode_relay_header-encode_example = decode_relay_header-encode 42 name (1 ∷ 2 ∷ []) (omega arith)

read : decode_relay_header (42 ∷ 0 ∷ 0 ∷ 0 ∷ 3 ∷ 115 ∷ 121 ∷ 100 ∷ 7 ∷ []) ≡ some (42, name, 7 ∷ [])
unfolding decode_relay_header continuation well_formed
read = refl

encode-decode_relay_header_example :
    encode_relay_header 42 name (7 ∷ []) ≡ 42 ∷ 0 ∷ 0 ∷ 0 ∷ 3 ∷ 115 ∷ 121 ∷ 100 ∷ 7 ∷ []
encode-decode_relay_header_example =
    encode-decode_relay_header (42 ∷ 0 ∷ 0 ∷ 0 ∷ 3 ∷ 115 ∷ 121 ∷ 100 ∷ 7 ∷ []) name (7 ∷ []) 42
      (omega arith) read
