-- ===== src/LossyProxy.antt =====
-- src/bin/lossy_proxy.rs: a proxy that drops datagrams by chance.
-- With each datagram comes what the random number decides, and how the send ends is ignored, as in
-- the source.
pub mod Passage
mod Tests
use entrouter_line.Base.{
  ℕ, ◌+◌, ◌%◌, ◌^◌, ◌≡◌, Bool, true, false, not, ◌&&◌, List, [], ◌∷◌, Option, none, some, Bytes,
  take, ◌==◌, if◌then◌else◌,
}

pub record Args : Type 0 where
  pub listen : ℕ
  pub target : ℕ
  pub bidirectional : Bool

-- The variables of the loop.
pub record Proxy : Type 0 where
  pub total : ℕ
  pub dropped : ℕ
  pub sender_addr : Option ℕ

abbrev pub start : Proxy
start = record { total = 0; dropped = 0; sender_addr = none }

pub data Event : Type 0 where
  failed : Event
  datagram : ℕ → Bytes → Bool → Event

-- A datagram that does not fit into the buffer is cut.
abbrev pub buffer_size : ℕ
buffer_size = 2048

abbrev pub Output : Type 0
Output = List (ℕ × Bytes)

abbrev pub to_sender : Bytes → Option ℕ → Output
to_sender bytes none = []
to_sender bytes (some addr) = (addr, bytes) ∷ []

abbrev pub unwrap_or : ℕ → Option ℕ → ℕ
unwrap_or d none = d
unwrap_or d (some a) = a

-- A round of the loop behind the count, for the two directions and what chance decides. Counters
-- wrap around as in a release build.
unfoldable pub pass : Args → Bool → Proxy → ℕ → Bytes → Bool → Bool → Proxy × Output
pass args bidirectional p from packet is_from_target drop =
    let seen : Proxy = if is_from_target then p else record p { sender_addr = some from } in
    let dest = if is_from_target then unwrap_or args.listen p.sender_addr else args.target in
    if is_from_target && not bidirectional
    then (p, to_sender packet p.sender_addr)
    else if drop
    then (record seen { dropped = (p.dropped + 1) % 2 ^ 64 }, [])
    else (seen, (dest, packet) ∷ [])

unfoldable pub step : Args → Proxy → Event → Proxy × Output
step args p failed = (p, [])
step args p (datagram from bytes drop) =
    pass args args.bidirectional (record p { total = (p.total + 1) % 2 ^ 64 }) from
      (take buffer_size bytes) (from == args.target) drop

unfoldable pub run : Args → Proxy → List Event → Proxy × List Output
run args p [] = (p, [])
run args p (e ∷ events) = let r = step args p e in let q = run args r.0 events in (q.0, r.1 ∷ q.1)
