-- ===== src/Relay/Wire/Tests.antt =====
-- Runs of src/relay/wire.rs.
use entrouter_line.Base.{
  ◌≤◌, ◌<◌, ◌^◌, ◌-◌, ◌≡◌, refl, Bytes, ok, panic, ◌>>=◌, length, drop, replicate, arith,
}
use entrouter_line.Relay.Wire.{encode_header, decode_header, header_size, packet_data, max_packet}
use entrouter_line.Relay.Wire.RoundTrip.{header_round_trip}

abbrev blank : Bytes
blank = replicate 13 0

roundtrip_header :
    (encode_header blank packet_data 1234 500 >>= decode_header) ≡ ok (packet_data, 1234, 500)
unfolding encode_header decode_header
roundtrip_header = refl

max_seq_and_len :
    (encode_header blank packet_data (2 ^ 64 - 1) (2 ^ 16 - 1) >>= decode_header)
    ≡ ok (packet_data, 2 ^ 64 - 1, 2 ^ 16 - 1)
unfolding encode_header decode_header
max_seq_and_len = refl

payload_within_mtu : max_packet ≤ 1500
payload_within_mtu = omega arith

header_round_trip_example :
    (header_size ≤ length blank
      → (out : Bytes) × (encode_header blank 1 1234 500 ≡ ok out)
        × (drop header_size out ≡ drop header_size blank)
        × (length out ≡ length blank)
        × (decode_header out ≡ ok (1, 1234, 500)))
    × (length blank < header_size
        → (encode_header blank 1 1234 500 ≡ panic) × (decode_header blank ≡ panic))
header_round_trip_example = header_round_trip blank 1 1234 500 (omega arith) (omega arith)
