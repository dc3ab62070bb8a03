-- ===== src/Relay/Forwarder/Handling.antt =====
-- src/relay/forwarder.rs: what a packet does to the state keeps its invariant.
use entrouter_line.Base.{
  ℕ, ◌^◌, ◌<◌, ◌≡◌, refl, inl, inr, Bool, ◌||◌, List, [], ◌∷◌, Option, none, some, OnOk, on_ok,
  OnOk-bind, Bytes, bytes_eq, string_eq, ◌==◌, Bool-cases, lookup, insert, EachValue-lookup,
  EachValue-insert, arith,
}
use entrouter_line.Mesh.LatencyMatrix.{LatencyMatrix}
use entrouter_line.Mesh.Probe.{Prober, create_pong, handle_pong, answered}
use entrouter_line.Mesh.Router.{RouteEntry}
use entrouter_line.Relay.Crypto.{Aead}
use entrouter_line.Relay.Fec.{ReedSolomon}
use entrouter_line.Relay.FecCodec.{FecReceiver}
use entrouter_line.Relay.FecCodec.Shapes.{IsReceiver, receive_shard-IsReceiver}
use entrouter_line.Relay.RelayHeader.{decode_relay_header}
use entrouter_line.Relay.Tunnel.{Socket, ReceivedPacket}
use entrouter_line.Relay.Wire.{packet_data, packet_parity, packet_ping, packet_pong}
use entrouter_line.Relay.Forwarder.{
  Forwarder, routed, route_data, route_all, reassembled, inbound_shard, inbound_ping,
  handle_inbound,
}
use entrouter_line.Relay.Forwarder.Invariant.{
  IsForwarder, send_on-IsForwarder, forward_to-IsForwarder, insert-HasKey,
}

pub probed-IsForwarder :
    (f : Forwarder) (p : Prober)
    → p.next_probe_id < 2 ^ 32
    → IsForwarder f
    → IsForwarder (record f { prober = p })
probed-IsForwarder f p ranged h = record {
  stored = h.stored;
  linked = h.linked;
  senders = h.senders;
  receivers = h.receivers;
  spawned = h.spawned;
  probing = ranged;
}

handle_pong_counter :
    (now : ℕ) (p : Prober) (from payload : Bytes)
    → (handle_pong now p from payload).next_probe_id ≡ p.next_probe_id
unfolding handle_pong answered
handle_pong_counter now p from payload = ground arith

module _ (a : Aead) (socket : Socket) (rs : ReedSolomon)
    (route : LatencyMatrix → Bytes → Option RouteEntry) where
  routed-IsForwarder :
      (up : Bool) (f : Forwarder) (from payload : Bytes) (o : Option (ℕ × Bytes × Bytes))
      → IsForwarder f
      → OnOk (λ q. IsForwarder q.0) (routed a socket rs route up f from payload o)
  unfolding routed
  routed-IsForwarder up f from payload none h = on_ok h
  routed-IsForwarder up f from payload (some (flow_id, dest, app_data)) h =
      elim (Bool-cases (bytes_eq dest f.node_id)) [
        | inl here ↦ rw here (on_ok h)
        | inr away ↦ rw away (
            OnOk-bind (forward_to-IsForwarder a socket rs route f dest payload h)
              λ q kept. on_ok kept)
      ]

  route_data-IsForwarder :
      (up : Bool) (f : Forwarder) (from payload : Bytes)
      → IsForwarder f
      → OnOk (λ q. IsForwarder q.0) (route_data a socket rs route up f from payload)
  unfolding route_data
  route_data-IsForwarder up f from payload h =
      routed-IsForwarder up f from payload (decode_relay_header payload) h

  route_all-IsForwarder :
      (up : Bool) (f : Forwarder) (from : Bytes) (payloads : List Bytes)
      → IsForwarder f
      → OnOk (λ q. IsForwarder q.0) (route_all a socket rs route up f from payloads)
  unfolding route_all
  route_all-IsForwarder up f from [] h = on_ok h
  route_all-IsForwarder up f from (payload ∷ payloads) h =
      OnOk-bind (route_data-IsForwarder up f from payload h)
        λ q kept. OnOk-bind (route_all-IsForwarder up q.0 from payloads kept) λ r kept'. on_ok kept'

  reassembled-IsForwarder :
      (up : Bool) (f : Forwarder) (from : Bytes) (o : Option (List Bytes))
      → IsForwarder f
      → OnOk (λ q. IsForwarder q.0) (reassembled a socket rs route up f from o)
  unfolding reassembled
  reassembled-IsForwarder up f from none h = on_ok h
  reassembled-IsForwarder up f from (some payloads) h = route_all-IsForwarder up f from payloads h

  inbound_shard-IsForwarder :
      (now : ℕ) (up : Bool) (f : Forwarder) (from payload : Bytes) (o : Option FecReceiver)
      → ((r : FecReceiver) → o ≡ some r → IsReceiver r)
      → IsForwarder f
      → OnOk (λ q. IsForwarder q.0) (inbound_shard a socket rs route now up f from payload o)
  unfolding inbound_shard
  inbound_shard-IsForwarder now up f from payload none receiver h =
      route_data-IsForwarder up f from payload h
  inbound_shard-IsForwarder now up f from payload (some r) receiver h =
      OnOk-bind (receive_shard-IsReceiver rs now r payload (receiver r refl)) λ q kept.
        let f' : Forwarder = record f { fec_receivers = insert from q.0 f.fec_receivers } in
        let h' : IsForwarder f' = record {
          stored = h.stored;
          linked = λ peer_id j e.
              let (bound, sends, receives) = h.linked peer_id j e in
              (bound, sends, insert-HasKey from peer_id q.0 f.fec_receivers receives);
          senders = h.senders;
          receivers = EachValue-insert IsReceiver from q.0 f.fec_receivers kept h.receivers;
          spawned = h.spawned;
          probing = h.probing;
        } in
        reassembled-IsForwarder up f' from q.1 h'

  inbound_ping-IsForwarder :
      (f : Forwarder) (payload : Bytes) (o : Option ℕ)
      → IsForwarder f
      → OnOk (λ q. IsForwarder q.0) (inbound_ping a socket rs route f payload o)
  unfolding inbound_ping
  inbound_ping-IsForwarder f payload none h = on_ok h
  inbound_ping-IsForwarder f payload (some i) h =
      OnOk-bind (send_on-IsForwarder a socket i packet_pong (create_pong payload) f h)
        λ q kept. on_ok kept

  pub handle_inbound-IsForwarder :
      (now : ℕ) (up : Bool) (f : Forwarder) (from : Bytes) (packet : ReceivedPacket)
      → IsForwarder f
      → OnOk (λ q. IsForwarder q.0) (handle_inbound a socket rs route now up f from packet)
  unfolding handle_inbound
  handle_inbound-IsForwarder now up f from packet h =
      elim (Bool-cases (packet.packet_type == packet_ping)) [
        | inl ping ↦ rw ping (inbound_ping-IsForwarder f packet.payload (lookup from f.tunnels) h)
        | inr no_ping ↦ elim (Bool-cases (packet.packet_type == packet_pong)) [
          | inl pong ↦
              rw (no_ping, pong)
                (on_ok (
                  probed-IsForwarder f (handle_pong now f.prober from packet.payload)
                    (omega (arith, handle_pong_counter now f.prober from packet.payload, h.probing))
                    h))
          | inr no_pong ↦
              elim (Bool-cases
                (packet.packet_type == packet_data || packet.packet_type == packet_parity)) [
                  | inl shard ↦
                      rw (no_ping, no_pong, shard)
                        (inbound_shard-IsForwarder now up f from packet.payload
                          (lookup from f.fec_receivers)
                          (λ r e. EachValue-lookup IsReceiver from r f.fec_receivers e h.receivers)
                          h)
                  | inr other ↦ rw (no_ping, no_pong, other) (on_ok h)
                ]
        ]
      ]
