-- ===== src/Relay/Forwarder.antt =====
-- src/relay/forwarder.rs: the packets of all tunnels, routed on or delivered.
-- An `Arc<Tunnel>` is an index into a store of tunnels. A task that is spawned to send shards keeps
-- such an index and the shards it has still to send; it runs later, a shard at a time, in any order
-- with what else happens. What leaves the node is a list of effects. A map is iterated in the order
-- of its list.
pub mod Routing
pub mod Inbound
pub mod Ping
pub mod Sending
pub mod Loop
pub mod Invariant
pub mod Handling
pub mod Steps
pub mod Flushing
pub mod Answers
mod Tests
use entrouter_line.Base.{
  ℕ, zero, suc, ◌+◌, ◌≡◌, Bool, true, false, ◌||◌, List, [], ◌∷◌, ◌++◌, Option, none, some, Run, ok,
  panic, ◌>>=◌, Bytes, bytes_eq, string_eq, lookup, insert, length, get_elem?, set, ◌==◌,
  if◌then◌else◌,
}
use entrouter_line.Mesh.LatencyMatrix.{LatencyMatrix}
use entrouter_line.Mesh.Probe
use entrouter_line.Mesh.Probe.{Prober, create_pong, handle_pong}
use entrouter_line.Mesh.Router.{RouteEntry}
use entrouter_line.Relay.Crypto.{Aead}
use entrouter_line.Relay.Fec.{FecConfig, ReedSolomon}
use entrouter_line.Relay.FecCodec.{
  FecSender, FecReceiver, new_sender, submit, flush_partial, receive_shard, expire_old,
}
use entrouter_line.Relay.RelayHeader.{encode_relay_header, decode_relay_header}
use entrouter_line.Relay.Tunnel.{Tunnel, Socket, ReceivedPacket, send}
use entrouter_line.Relay.Wire.{packet_data, packet_parity, packet_ping, packet_pong}

pub record LocalDelivery : Type 0 where
  pub flow_id : ℕ
  pub app_data : Bytes
  pub source_node : Bytes

pub data ForwarderError : Type 0 where
  no_route : Bytes → ForwarderError
  send_failed : ForwarderError
  no_tunnel : Bytes → ForwarderError

-- A datagram that is handed to the socket, which may lose it, or a delivery to the local edge.
pub data Effect : Type 0 where
  sent : ℕ → Bytes → Effect
  delivered : LocalDelivery → Effect

-- A tunnel, and the shards that are still to be sent over it.
abbrev pub Task : Type 0
Task = ℕ × List (ℕ × Bytes)

pub record Forwarder : Type 0 where
  pub node_id : Bytes
  pub prober : Prober
  pub store : List Tunnel
  pub tunnels : List (Bytes × ℕ)
  pub fec_config : FecConfig
  pub fec_senders : List (Bytes × FecSender)
  pub fec_receivers : List (Bytes × FecReceiver)
  pub tasks : List Task

abbrev pub new : Bytes → Prober → FecConfig → Forwarder
new node_id prober fec_config = record {
  node_id = node_id;
  prober = prober;
  store = [];
  tunnels = [];
  fec_config = fec_config;
  fec_senders = [];
  fec_receivers = [];
  tasks = [];
}

-- `entry(k).or_insert_with(..)`.
abbrev pub or_insert {ℓ} : {A : Type ℓ} → Bytes → A → List (Bytes × A) → Option A → List (Bytes × A)
or_insert k v m none = insert k v m
or_insert k v m (some _) = m

unfoldable pub add_tunnel : Forwarder → Bytes → Tunnel → Forwarder
unfolding new_sender
add_tunnel f peer_id tunnel = record f {
  store = f.store ++ tunnel ∷ [];
  tunnels = insert peer_id (length f.store) f.tunnels;
  fec_senders =
      or_insert peer_id (new_sender f.fec_config) f.fec_senders (lookup peer_id f.fec_senders);
  fec_receivers = or_insert peer_id [] f.fec_receivers (lookup peer_id f.fec_receivers);
}

abbrev pub spawn : ℕ → Option (List (ℕ × Bytes)) → List Task → List Task
spawn i none tasks = tasks
spawn i (some shards) tasks = tasks ++ (i, shards) ∷ []

module _ (a : Aead) (socket : Socket) where
  -- `tunnel.send`, on the tunnel itself or where it stands in the store.
  send_stored : ℕ → ℕ → Bytes → Forwarder → Option Tunnel → Run (Forwarder × List Effect × Bool)
  send_stored i ptype payload f none = ok (f, [], false)
  send_stored i ptype payload f (some t) = do
    (t', frame, success) ← send a socket t ptype payload
    ok (record f { store = set f.store i t' }, sent t.peer_addr frame ∷ [], success)

  unfoldable pub send_on : ℕ → ℕ → Bytes → Forwarder → Run (Forwarder × List Effect × Bool)
  unfolding send_stored
  send_on i ptype payload f = send_stored i ptype payload f (get_elem? f.store i)

  -- A spawned task sends its next shard, whatever becomes of it.
  next_shard : ℕ → Forwarder → Option Task → Run (Forwarder × List Effect)
  next_shard n f none = ok (f, [])
  next_shard n f (some (i, [])) = ok (f, [])
  next_shard n f (some (i, (ptype, shard) ∷ shards)) = do
    (f', effects, success) ← send_on i ptype shard (record f { tasks = set f.tasks n (i, shards) })
    ok (f', effects)

  unfoldable pub run_task : ℕ → Forwarder → Run (Forwarder × List Effect)
  unfolding next_shard
  run_task n f = next_shard n f (get_elem? f.tasks n)

module _ (a : Aead) (socket : Socket) (rs : ReedSolomon)
    (route : LatencyMatrix → Bytes → Option RouteEntry) where
  -- The last steps of `forward_to`: through the sender of the next hop, or without one.
  over_tunnel :
      Forwarder
      → Bytes
      → ℕ
      → Bytes
      → Option FecSender
      → Run (Forwarder × List Effect × Option ForwarderError)
  over_tunnel f hop i payload (some sender) = do
    (sender', shards) ← submit rs sender payload
    ok (
      record f { fec_senders = insert hop sender' f.fec_senders; tasks = spawn i shards f.tasks },
      [],
      none,
    )
  over_tunnel f hop i payload none = do
    (f', effects, success) ← send_on a socket i packet_data payload f
    ok (f', effects, if success then none else some send_failed)

  via_hop :
      Forwarder → Bytes → Bytes → Option ℕ → Run (Forwarder × List Effect × Option ForwarderError)
  via_hop f hop payload none = ok (f, [], some (no_tunnel hop))
  via_hop f hop payload (some i) = over_tunnel f hop i payload (lookup hop f.fec_senders)

  along :
      Forwarder
      → Bytes
      → Bytes
      → Option RouteEntry
      → Run (Forwarder × List Effect × Option ForwarderError)
  along f dest_node payload none = ok (f, [], some (no_route dest_node))
  along f dest_node payload (some r) =
      via_hop f r.next_hop_node payload (lookup r.next_hop_node f.tunnels)

  unfoldable pub forward_to :
      Forwarder → Bytes → Bytes → Run (Forwarder × List Effect × Option ForwarderError)
  unfolding over_tunnel via_hop along
  forward_to f dest_node relay_payload =
      along f dest_node relay_payload (route f.prober.matrix dest_node)

  unfoldable pub send_to_node :
      Forwarder → Bytes → ℕ → Bytes → Run (Forwarder × List Effect × Option ForwarderError)
  send_to_node f dest_node flow_id app_data =
      forward_to f dest_node (encode_relay_header flow_id dest_node app_data)

  -- An error is logged only. `channel_open` tells whether the edge still takes deliveries.
  routed :
      Bool → Forwarder → Bytes → Bytes → Option (ℕ × Bytes × Bytes) → Run (Forwarder × List Effect)
  routed channel_open f from_peer payload none = ok (f, [])
  routed channel_open f from_peer payload (some (flow_id, dest_node, app_data)) =
      let delivery : LocalDelivery = record {
        flow_id = flow_id;
        app_data = app_data;
        source_node = from_peer;
      } in
      if bytes_eq dest_node f.node_id
      then ok (f, if channel_open then delivered delivery ∷ [] else [])
      else (do (f', effects, error) ← forward_to f dest_node payload; ok (f', effects))

  unfoldable pub route_data : Bool → Forwarder → Bytes → Bytes → Run (Forwarder × List Effect)
  unfolding routed
  route_data channel_open f from_peer payload =
      routed channel_open f from_peer payload (decode_relay_header payload)

  unfoldable pub route_all : Bool → Forwarder → Bytes → List Bytes → Run (Forwarder × List Effect)
  route_all channel_open f from_peer [] = ok (f, [])
  route_all channel_open f from_peer (payload ∷ payloads) = do
    (f', effects) ← route_data channel_open f from_peer payload
    (f'', more) ← route_all channel_open f' from_peer payloads
    ok (f'', effects ++ more)

  reassembled : Bool → Forwarder → Bytes → Option (List Bytes) → Run (Forwarder × List Effect)
  reassembled channel_open f from_peer none = ok (f, [])
  reassembled channel_open f from_peer (some payloads) = route_all channel_open f from_peer payloads

  -- Data and parity packets.
  inbound_shard :
      ℕ → Bool → Forwarder → Bytes → Bytes → Option FecReceiver → Run (Forwarder × List Effect)
  unfolding reassembled
  inbound_shard now channel_open f from_peer payload none =
      route_data channel_open f from_peer payload
  inbound_shard now channel_open f from_peer payload (some receiver) = do
    (receiver', payloads) ← receive_shard rs now receiver payload
    reassembled channel_open
        (record f { fec_receivers = insert from_peer receiver' f.fec_receivers }) from_peer payloads

  inbound_ping : Forwarder → Bytes → Option ℕ → Run (Forwarder × List Effect)
  inbound_ping f payload none = ok (f, [])
  inbound_ping f payload (some i) = do
    (f', effects, success) ← send_on a socket i packet_pong (create_pong payload) f
    ok (f', effects)

  unfoldable pub handle_inbound :
      ℕ → Bool → Forwarder → Bytes → ReceivedPacket → Run (Forwarder × List Effect)
  unfolding inbound_ping inbound_shard
  handle_inbound now channel_open f from_peer packet =
      if packet.packet_type == packet_ping
      then inbound_ping f packet.payload (lookup from_peer f.tunnels)
      else if packet.packet_type == packet_pong
      then ok (record f { prober = handle_pong now f.prober from_peer packet.payload }, [])
      else if packet.packet_type == packet_data || packet.packet_type == packet_parity
      then inbound_shard now channel_open f from_peer packet.payload
          (lookup from_peer f.fec_receivers)
      else ok (f, [])

abbrev pub peer_count : Forwarder → ℕ
peer_count f = length f.tunnels
