-- ===== src/Mesh/Probe.antt =====
-- src/mesh/probe.rs: pings under numbers of 32 bits, and the round-trip times of their pongs.
-- The shared matrix is part of the state. A time is a number of nanoseconds.
pub mod Pong
mod Tests
use entrouter_line.Base.{
  Run, ok, ◌>>=◌, ℕ, ◌+◌, ◌-◌, ◌%◌, ◌^◌, ◌≡◌, List, [], ◌∷◌, Option, none, some, Bytes, lookup,
  insert, remove, retain, nat_eq, to_le, from_le, take, length, ltb, if◌then◌else◌,
}
use entrouter_line.Relay.Crypto.{Aead}
use entrouter_line.Relay.Tunnel.{Tunnel, Socket, send}
use entrouter_line.Relay.Wire.{packet_ping}
use entrouter_line.Mesh.LatencyMatrix
use entrouter_line.Mesh.LatencyMatrix.{LatencyMatrix, update}

pub record Prober : Type 0 where
  pub node_id : Bytes
  pub matrix : LatencyMatrix
  pub pending : List (ℕ × (Bytes × ℕ))
  pub next_probe_id : ℕ

abbrev pub new : Bytes → LatencyMatrix → Prober
new node_id matrix = record { node_id = node_id; matrix = matrix; pending = []; next_probe_id = 1 }

-- 10 seconds.
abbrev pub max_age : ℕ
max_age = 10000000000

-- The clock is read twice: when the ping is recorded, and for the clean-up.
unfoldable pub create_ping : ℕ → ℕ → Prober → Bytes → Prober × Bytes
create_ping sent now p peer_id =
    let probe_id = p.next_probe_id in
    let pending = insert probe_id (peer_id, sent) p.pending in
    (
      record p {
        pending = retain (λ e. ltb (now - e.1) max_age) pending;
        next_probe_id = (probe_id + 1) % 2 ^ 32;
      },
      to_le 4 probe_id,
    )

abbrev pub create_pong : Bytes → Bytes
create_pong ping_payload = ping_payload

-- The entry that `remove` has taken out, if there was one.
unfoldable pub answered : ℕ → Prober → Option (Bytes × ℕ) → Prober
answered now p none = p
answered now p (some (peer_id, send_time)) =
    let rtt = now - send_time in
    record p {
      matrix = update now (update now p.matrix p.node_id peer_id rtt) peer_id p.node_id rtt;
    }

unfoldable pub handle_pong : ℕ → Prober → Bytes → Bytes → Prober
unfolding answered
handle_pong now p from_peer payload =
    if ltb (length payload) 4
    then p
    else let probe_id = from_le (take 4 payload) in
      answered now (record p { pending = remove probe_id p.pending }) (lookup probe_id p.pending)

-- A round of `probe_loop`; whether the ping is sent does not matter to it.
unfoldable pub probe_tick :
    Aead → Socket → ℕ → ℕ → Prober → Bytes → Tunnel → Run (Prober × Tunnel × Bytes)
probe_tick a socket sent now p peer_id tunnel =
    let (p', ping) = create_ping sent now p peer_id in
    do (tunnel', frame, success) ← send a socket tunnel packet_ping ping; ok (p', tunnel', frame)

abbrev pub pending_count : Prober → ℕ
pending_count p = length p.pending
