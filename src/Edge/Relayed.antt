-- ===== src/Edge/Relayed.antt =====
-- src/edge/tcp_split.rs, src/relay/forwarder.rs and src/relay/fec_codec.rs: pieces of a flow, from the
-- edge of one node to the edge of another.
use entrouter_line.Base.{
  ℕ, Bool, ◌+◌, ◌^◌, ◌≤◌, ◌<◌, ◌≡◌, refl, sym, ap, ◌∙◌, true, List, [], ◌∷◌, ◌++◌, append_assoc,
  map, length-map, Option, none, some, ok, Bytes, All, length, length-append, length-take, take,
  lookup, insert, string_eq, nat_eq, insert_twice, lookup-insert_self, arith, ok-injective, min,
}
use entrouter_line.Mesh.LatencyMatrix.{LatencyMatrix}
use entrouter_line.Mesh.Router.{RouteEntry}
use entrouter_line.Relay.Crypto.{Aead}
use entrouter_line.Relay.Fec.{ReedSolomon}
use entrouter_line.Relay.Fec.Encoder.{Recovers}
use entrouter_line.Relay.FecCodec.{FecSender, FecReceiver, flush}
use entrouter_line.Relay.FecCodec.Payloads.{IsPayload}
use entrouter_line.Relay.FecCodec.Sender.{
  framing, block_of, flushed, flush-block_of, submit-flushed,
}
use entrouter_line.Relay.FecCodec.RoundTrip.{Distinct}
use entrouter_line.Relay.RelayHeader.{encode_relay_header}
use entrouter_line.Relay.Tunnel.{Socket}
use entrouter_line.Relay.Forwarder.{Forwarder, send_to_node}
use entrouter_line.Relay.Forwarder.Routing.{Message, relayed, delivery, IsName}
use entrouter_line.Relay.Forwarder.Inbound.{Follows, run-flush}
use entrouter_line.Relay.Forwarder.Invariant.{IsForwarder}
use entrouter_line.Relay.Forwarder.Loop.{Wake, run}
use entrouter_line.Relay.FecCodec.Expiry.{Schedule, arrivals, IsTimely}
use mathlib.Core.Path.{subst}
use entrouter_line.Relay.Forwarder.Sending.{pushed, submit_more, forward_to-submit}
use entrouter_line.Edge.{relay_pieces}

-- The pieces of a flow as messages, and as payloads for a node.
abbrev pub messages : ℕ → List Bytes → List Message
messages flow_id pieces = map (λ p. (flow_id, p)) pieces

abbrev pub payloads : Bytes → ℕ → List Bytes → List Bytes
payloads dest flow_id pieces = map (λ p. encode_relay_header flow_id dest p) pieces

module _ (a : Aead) (socket : Socket) (rs : ReedSolomon)
    (route : LatencyMatrix → Bytes → Option RouteEntry) (dest : Bytes) (r : RouteEntry)
    (flow_id i : ℕ) where
  -- Pieces that fill the block of the next hop's sender leave it empty, and all shards of the block
  -- in one new task.
  relay_pieces-block :
      (f : Forwarder) (s : FecSender) (pieces : List Bytes)
      (c : Recovers rs s.config.data_shards s.config.parity_shards)
      → route f.prober.matrix dest ≡ some r
      → lookup r.next_hop_node f.tunnels ≡ some i
      → lookup r.next_hop_node f.fec_senders ≡ some s
      → 0 < length pieces
      → length s.buffer + length pieces ≡ s.config.data_shards
      → relay_pieces a socket rs route f dest flow_id pieces
        ≡ ok (
          record f {
            fec_senders = insert r.next_hop_node (flushed rs s c) f.fec_senders;
            tasks =
                f.tasks
                ++ (
                  i,
                  framing s.config s.block_id 0
                      (block_of rs s c (s.buffer ++ payloads dest flow_id pieces)),
                )
                  ∷ [];
          },
          [],
          true,
        )
  unfolding relay_pieces send_to_node
  relay_pieces-block f s [] c routed there sender pos full = absurd (omega arith)
  relay_pieces-block f s (p ∷ []) c routed there sender pos full =
      let x = encode_relay_header flow_id dest p in
      let submitted =
        (submit-flushed rs s x c (omega arith)).1
          (omega (arith, length-append s.buffer (x ∷ []))) in
      rw
        (forward_to-submit a socket rs route f dest x r i s (flushed rs s c)
          (some (framing s.config s.block_id 0 (block_of rs s c (s.buffer ++ x ∷ [])))) routed there
          sender submitted)
        refl
  relay_pieces-block f s (p ∷ q ∷ pieces) c routed there sender pos full =
      let x = encode_relay_header flow_id dest p in
      let s' = pushed s x in
      let hop = r.next_hop_node in
      let size : length s'.buffer ≡ length s.buffer + 1 =
        omega (arith, length-append s.buffer (x ∷ [])) in
      let f' : Forwarder = record f { fec_senders = insert hop s' f.fec_senders } in
      let first =
        forward_to-submit a socket rs route f dest x r i s s' none routed there sender
          (submit_more rs s x (omega (arith, size))) in
      let rest =
        relay_pieces-block f' s' (q ∷ pieces) c routed there
          (lookup-insert_self hop s' f.fec_senders) (omega arith) (omega (arith, size)) in
      let task : List Bytes → List (ℕ × List (ℕ × Bytes)) =
        λ l. f.tasks ++ (i, framing s.config s.block_id 0 (block_of rs s c l)) ∷ [] in
      rw (first, rest)
        (ap
            (λ m. ok (
              record f {
                fec_senders = m;
                tasks = task ((s.buffer ++ x ∷ []) ++ payloads dest flow_id (q ∷ pieces));
              },
              [],
              true,
            ))
            (insert_twice hop (flushed rs s c) s' f.fec_senders)
          ∙ ap
              (λ l. ok (
                record f {
                  fec_senders = insert hop (flushed rs s c) f.fec_senders;
                  tasks = task l;
                },
                [],
                true,
              ))
              (append_assoc s.buffer (x ∷ []) (payloads dest flow_id (q ∷ pieces))))

length-encode_relay_header :
    (flow_id : ℕ) (dest p : Bytes)
    → length (encode_relay_header flow_id dest p) ≡ 5 + min (length dest) 255 + length p
unfolding encode_relay_header
length-encode_relay_header flow_id dest p =
    let n = min (length dest) 255 in
    omega (arith, length-append (take n dest) p, length-take n dest)

payloads-IsPayload :
    (dest : Bytes) (flow_id : ℕ) (pieces : List Bytes)
    → All (λ p. length p < 65000) pieces
    → All IsPayload (payloads dest flow_id pieces)
payloads-IsPayload dest flow_id [] h = tt
payloads-IsPayload dest flow_id (p ∷ pieces) (small, more) =
    let size = length-encode_relay_header flow_id dest p in
    ((omega (arith, size), omega (arith, size)), payloads-IsPayload dest flow_id pieces more)

messages-small :
    (flow_id : ℕ) (pieces : List Bytes)
    → flow_id < 2 ^ 32
    → All (λ m. m.0 < 2 ^ 32) (messages flow_id pieces)
messages-small flow_id [] small = tt
messages-small flow_id (p ∷ pieces) small = (small, messages-small flow_id pieces small)

relayed-messages :
    (dest : Bytes) (flow_id : ℕ) (pieces : List Bytes)
    → payloads dest flow_id pieces ≡ map (relayed dest) (messages flow_id pieces)
relayed-messages dest flow_id [] = refl
relayed-messages dest flow_id (p ∷ pieces) =
    ap (λ t. encode_relay_header flow_id dest p ∷ t) (relayed-messages dest flow_id pieces)

-- As many pieces of a flow as a block has data shards, relayed at one node towards another while the
-- block of the sender for the next hop is empty, are all taken and leave in one task with the shards
-- of the block. The other node then gets any `k` of these shards as data or parity packets from one
-- peer, in any order, with nothing else in between but runs of the timer, each of them less than half a
-- second after the first shard: its loop delivers exactly those pieces to its edge, which takes
-- deliveries all the time, under their flow, each once and in their order, and keeps the invariant. The
-- first node has a route, a tunnel and a sender for the next hop; the other node's state keeps the
-- invariant, and it has a receiver for the peer, with no block of that number before. Both codes keep
-- their promise, with some data and parity shards and `k + p ≤ 256`. The name of the other node is
-- UTF-8 of at most 255 bytes, the flow identifier a `u32`, the block number a `u16`, and no piece has
-- 65000 bytes or more.
pub relay_pieces-run :
    (a : Aead) (socket : Socket) (rs : ReedSolomon)
    (route peer_route : LatencyMatrix → Bytes → Option RouteEntry) (node peer : Forwarder)
    (node_name : Bytes) (r : RouteEntry) (flow_id i : ℕ) (s : FecSender) (blocks : FecReceiver)
    (pieces : List Bytes) (t : ℕ) (schedule : Schedule)
    → Recovers rs s.config.data_shards s.config.parity_shards
    → IsForwarder peer
    → Recovers rs peer.fec_config.data_shards peer.fec_config.parity_shards
    → 0 < peer.fec_config.data_shards
    → IsName peer.node_id
    → flow_id < 2 ^ 32
    → All (λ p. length p < 65000) pieces
    → route node.prober.matrix peer.node_id ≡ some r
    → lookup r.next_hop_node node.tunnels ≡ some i
    → lookup r.next_hop_node node.fec_senders ≡ some s
    → s.buffer ≡ []
    → 0 < s.config.data_shards
    → length pieces ≡ s.config.data_shards
    → s.block_id < 2 ^ 16
    → 0 < s.config.parity_shards
    → s.config.data_shards + s.config.parity_shards ≤ 256
    → lookup node_name peer.fec_receivers ≡ some blocks
    → lookup s.block_id blocks ≡ none
    → All (λ x. x.1 < s.config.data_shards + s.config.parity_shards) (arrivals schedule)
    → Distinct (arrivals schedule)
    → length (arrivals schedule) ≡ s.config.data_shards
    → All (IsTimely t) schedule
    → (node' : Forwarder) × (frames : List (ℕ × Bytes)) × (relay_pieces a socket rs route node
          peer.node_id flow_id pieces
        ≡ ok (node', [], true))
      × (node'.tasks ≡ node.tasks ++ (i, frames) ∷ [])
      × ((wakes : List (Wake × Bool))
          → Follows node_name frames wakes schedule
          → (peer' : Forwarder) × (run a socket rs peer_route peer wakes
              ≡ ok (peer', map (delivery node_name) (messages flow_id pieces)))
            × IsForwarder peer')
relay_pieces-run a socket rs route peer_route node peer node_name r flow_id i s blocks pieces t
      schedule c h code code_pos name small short routed there sender empty k_pos full id p_pos few
      known fresh inside distinct enough timely =
    let dest = peer.node_id in
    let xs = payloads dest flow_id pieces in
    let size : length xs ≡ s.config.data_shards =
      length-map (λ p. encode_relay_header flow_id dest p) pieces ∙ full in
    let s₁ : FecSender = record s { buffer = xs } in
    let frames = framing s.config s.block_id 0 (block_of rs s c xs) in
    let none_waiting : length s.buffer ≡ 0 = ap length empty in
    let sent =
      relay_pieces-block a socket rs route dest r flow_id i node s pieces c routed there sender
        (omega arith) (omega (arith, none_waiting)) in
    let flushes : flush rs s₁ ≡ ok (flushed rs s₁ c, frames) =
      flush-block_of rs s₁ c (omega (arith, size)) (omega (arith, size)) in
    let (s', frames', flushes', arrives) =
      run-flush a socket rs peer_route peer node_name s₁ blocks (messages flow_id pieces) t schedule
        h code code_pos name (messages-small flow_id pieces small)
        (relayed-messages dest flow_id pieces) known c (omega (arith, size)) (omega (arith, size))
        (payloads-IsPayload dest flow_id pieces short) id p_pos few fresh inside distinct enough
        timely in
    let same : frames' ≡ frames =
      ap (λ (x : FecSender × List (ℕ × Bytes)). x.1) (ok-injective (sym flushes' ∙ flushes)) in
    (
      record node {
        fec_senders = insert r.next_hop_node (flushed rs s c) node.fec_senders;
        tasks =
            node.tasks
            ++ (i, framing s.config s.block_id 0 (block_of rs s c (s.buffer ++ xs))) ∷ [];
      },
      frames,
      sent,
      ap (λ b. node.tasks ++ (i, framing s.config s.block_id 0 (block_of rs s c (b ++ xs))) ∷ [])
          empty,
      λ wakes follows.
          arrives wakes (subst (λ f. Follows node_name f wakes schedule) (sym same) follows),
    )
