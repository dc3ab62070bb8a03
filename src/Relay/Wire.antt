-- ===== src/Relay/Wire.antt =====
-- src/relay/wire.rs: the frame header of tunnel packets, and writes into byte buffers.
pub mod RoundTrip
mod Tests
use entrouter_line.Base.{
  ℕ, ◌+◌, ◌≡◌, Bool, List, [], ◌∷◌, ◌++◌, Option, none, some, Run, ok, panic, ◌>>=◌, ◌>>◌, expect,
  Bytes, to_le, from_le, length, get_elem?, take, drop, leb, if◌then◌else◌,
}

abbrev pub packet_data : ℕ
packet_data = 0x01

abbrev pub packet_parity : ℕ
packet_parity = 0x02

abbrev pub packet_ping : ℕ
packet_ping = 0x03

abbrev pub packet_pong : ℕ
packet_pong = 0x04

abbrev pub packet_control : ℕ
packet_control = 0x05

abbrev pub header_size : ℕ
header_size = 11

abbrev pub auth_tag_size : ℕ
auth_tag_size = 16

abbrev pub max_payload : ℕ
max_payload = 1400

abbrev pub max_packet : ℕ
max_packet = header_size + max_payload + auth_tag_size

-- `buf[at..at + src.len()].copy_from_slice(src)`; a range past the end panics.
unfoldable pub copy_into : ℕ → Bytes → Bytes → Run Bytes
copy_into at src buf =
    if leb (at + length src) (length buf)
    then ok (take at buf ++ (src ++ drop (at + length src) buf))
    else panic

-- `buf[at] = v`.
unfoldable pub store : ℕ → ℕ → Bytes → Run Bytes
unfolding copy_into
store at v buf = copy_into at (v ∷ []) buf

-- `buf[i]`.
abbrev pub read : Bytes → ℕ → Run ℕ
read buf i = expect (get_elem? buf i)

unfoldable pub encode_header : Bytes → ℕ → ℕ → ℕ → Run Bytes
unfolding store copy_into
encode_header buf packet_type seq payload_len = do
  buf₁ ← store 0 packet_type buf
  buf₂ ← copy_into 1 (to_le 8 seq) buf₁
  copy_into 9 (to_le 2 payload_len) buf₂

unfoldable pub decode_header : Bytes → Run (ℕ × ℕ × ℕ)
decode_header buf = do
  packet_type ← read buf 0
  s₀ ← read buf 1
  s₁ ← read buf 2
  s₂ ← read buf 3
  s₃ ← read buf 4
  s₄ ← read buf 5
  s₅ ← read buf 6
  s₆ ← read buf 7
  s₇ ← read buf 8
  l₀ ← read buf 9
  l₁ ← read buf 10
  let seq = from_le (s₀ ∷ s₁ ∷ s₂ ∷ s₃ ∷ s₄ ∷ s₅ ∷ s₆ ∷ s₇ ∷ [])
  let payload_len = from_le (l₀ ∷ l₁ ∷ [])
  ok (packet_type, seq, payload_len)
