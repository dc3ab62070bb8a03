-- ===== src/Relay/RelayHeader.antt =====
-- src/relay/forwarder.rs: the header that names the flow and the destination of relayed data.
-- A `str` is its bytes; `is_utf8` is the test of `std::str::from_utf8`, by the table of well-formed
-- byte sequences of the Unicode standard.
pub mod RoundTrip
mod Tests
use entrouter_line.Base.{
  ℕ, suc, ◌+◌, min, ◌≡◌, Bool, true, false, ◌&&◌, List, [], ◌∷◌, ◌++◌, Option, none, some, Bytes,
  to_le, from_le, length, get_or, take, drop, ltb, leb, if◌then◌else◌,
}

-- What the bytes behind the first one of a character may be, as inclusive ranges.
abbrev pub Range : Type 0
Range = ℕ × ℕ

abbrev pub tail : Range
tail = (0x80, 0xBF)

unfoldable pub continuation : ℕ → Option (List Range)
continuation b =
    if leb b 0x7F
    then some []
    else if ltb b 0xC2
    then none
    else if leb b 0xDF
    then some (tail ∷ [])
    else if leb b 0xE0
    then some ((0xA0, 0xBF) ∷ tail ∷ [])
    else if leb b 0xEC
    then some (tail ∷ tail ∷ [])
    else if leb b 0xED
    then some ((0x80, 0x9F) ∷ tail ∷ [])
    else if leb b 0xEF
    then some (tail ∷ tail ∷ [])
    else if leb b 0xF0
    then some ((0x90, 0xBF) ∷ tail ∷ tail ∷ [])
    else if leb b 0xF3
    then some (tail ∷ tail ∷ tail ∷ [])
    else if leb b 0xF4
    then some ((0x80, 0x8F) ∷ tail ∷ tail ∷ [])
    else none

-- Whether bytes go on well formed, where ranges are still due.
unfoldable pub well_formed : List Range → Bytes → Bool
well_formed [] [] = true
well_formed (r ∷ rs) [] = false
well_formed (r ∷ rs) (b ∷ bs) = leb r.0 b && leb b r.1 && well_formed rs bs
well_formed [] (b ∷ bs) = elim (continuation b) [ none ↦ false | some rs ↦ well_formed rs bs ]

abbrev pub is_utf8 : Bytes → Bool
is_utf8 bs = well_formed [] bs

unfoldable pub encode_relay_header : ℕ → Bytes → Bytes → Bytes
encode_relay_header flow_id dest_node payload =
    let dest_len = min (length dest_node) 255 in
    to_le 4 flow_id ++ (dest_len ∷ (take dest_len dest_node ++ payload))

-- Behind the length tests no index is out of range.
unfoldable pub decode_relay_header : Bytes → Option (ℕ × Bytes × Bytes)
decode_relay_header buf =
    let dest_len = get_or buf 4 0 in
    let dest_node = take dest_len (drop 5 buf) in
    if ltb (length buf) 5
    then none
    else if ltb (length buf) (5 + dest_len)
    then none
    else if is_utf8 dest_node
    then some (from_le (take 4 buf), dest_node, drop dest_len (drop 5 buf))
    else none
