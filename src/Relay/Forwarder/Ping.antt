-- ===== src/Relay/Forwarder/Ping.antt =====
-- src/relay/forwarder.rs, src/relay/tunnel.rs and src/mesh/probe.rs: a ping to a peer, the peer's
-- pong, and what the pong changes.
use entrouter_line.Base.{
  ℕ, ◌-◌, ◌^◌, ◌<◌, ◌≡◌, refl, sym, ap, ◌∙◌, true, [], ◌∷◌, Option, some, ok, Bytes, length, lookup,
  get_elem?, set, append-nil, string_eq, nat_eq, arith,
}
use entrouter_line.Mesh.LatencyMatrix.{LatencyMatrix, update}
use entrouter_line.Mesh.Probe.{create_ping, handle_pong, max_age}
use entrouter_line.Mesh.Probe.Pong.{handle_pong-create_ping}
use entrouter_line.Mesh.Router.{RouteEntry}
use entrouter_line.Relay.Crypto.{Aead, Seals}
use entrouter_line.Relay.Fec.{ReedSolomon}
use entrouter_line.Relay.Tunnel.{
  Tunnel, Socket, Peers, ReceivedPacket, received, received_len, recv_into, receive_one,
}
use entrouter_line.Relay.Tunnel.SendReceive.{send-receive_one}
use entrouter_line.Relay.Wire.{packet_ping, packet_pong, max_packet}
use entrouter_line.Relay.Forwarder.{
  Forwarder, sent, handle_inbound, inbound_ping, send_on, send_stored,
}

-- A ping that a node has recorded for a peer is answered by the peer with one frame to the tunnel of
-- the node. The node, which knows the peer's address and key, receives that frame into its buffer of
-- `MAX_PACKET` bytes as a pong from the peer, and then its matrix has the time since the ping
-- averaged in, in both directions. The cipher keeps its promise, and 10 seconds are not over when
-- old probes are cleaned up.
pub handle_inbound-create_ping :
    (a : Aead) (socket : Socket) (rs : ReedSolomon)
    (route : LatencyMatrix → Bytes → Option RouteEntry) (node peer : Forwarder)
    (node_name peer_name : Bytes) (start clean arrival now : ℕ) (i seq addr from : ℕ)
    (tunnel : Tunnel) (peers : Peers) (buf : Bytes)
    → Seals a
    → node.prober.next_probe_id < 2 ^ 32
    → clean - start < max_age
    → lookup node_name peer.tunnels ≡ some i
    → get_elem? peer.store i ≡ some tunnel
    → tunnel.tx_seq < 2 ^ 64
    → lookup from peers ≡ some (peer_name, tunnel.key)
    → length buf ≡ max_packet
    → let (prober, ping) = create_ping start clean node.prober peer_name in
      let packet : ReceivedPacket = record {
        packet_type = packet_ping;
        seq = seq;
        payload = ping;
        from = addr;
      } in
      let rtt = now - start in
      (peer' : Forwarder) × (frame : Bytes) × (pong : ReceivedPacket) × (node' : Forwarder)
      × (handle_inbound a socket rs route arrival true peer node_name packet
          ≡ ok (peer', sent tunnel.peer_addr frame ∷ []))
      × (receive_one a peers from (received_len buf frame) (recv_into buf frame)
          ≡ ok (received peer_name pong))
      × (handle_inbound a socket rs route now true (record node { prober = prober }) peer_name pong
          ≡ ok (node', []))
      × (node'.prober.matrix
          ≡ update now
              (update now node.prober.matrix node.prober.node_id peer_name rtt)
              peer_name
              node.prober.node_id
              rtt)
unfolding handle_inbound inbound_ping send_on send_stored
handle_inbound-create_ping a socket rs route node peer node_name peer_name start clean arrival now i
      seq addr from tunnel peers buf s small fresh there stored small_seq known room =
    let (prober, ping) = create_ping start clean node.prober peer_name in
    let (four, next, measured, gone, again) =
      handle_pong-create_ping start clean now now node.prober peer_name peer_name [] small fresh in
    let (u, frame, sends, counts, receives, over) =
      send-receive_one a socket tunnel packet_pong ping peers from peer_name buf s small_seq
        (omega (arith, four)) known room in
    let pong : ReceivedPacket = record {
      packet_type = packet_pong;
      seq = tunnel.tx_seq;
      payload = ping;
      from = from;
    } in
    let answered = handle_pong now prober peer_name ping in
    (
      record peer { store = set peer.store i u },
      frame,
      pong,
      record node { prober = answered },
      rw (there, stored, sends) refl,
      receives (omega (arith, four)),
      refl,
      ap (λ l. (handle_pong now prober peer_name l).matrix) (sym (append-nil ping)) ∙ measured,
    )
