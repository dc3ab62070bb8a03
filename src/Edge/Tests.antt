-- ===== src/Edge/Tests.antt =====
-- The theorems on src/edge at inputs.
use entrouter_line.Base.{
  ℕ, Bool, none, none≢some, List, ok, All, map, string_eq, ◌≤◌, ◌≡◌, ◌≢◌, refl, true, [], ◌∷◌, some,
  Bytes, length, lookup, nat_eq, arith, ◌>>=◌, concat,
}
use entrouter_line.Relay.Forwarder.{LocalDelivery}
use entrouter_line.Edge.{Channel, Edge, Edges, quic_acceptor, deliver, dispatch}
use entrouter_line.Mesh.LatencyMatrix.{LatencyMatrix, fresh_entry, all_edges, collect_nodes}
use entrouter_line.Mesh.Probe
use entrouter_line.Mesh.Router.{
  RouteEntry, route_from, relax, relax_all, visit, search, walk_back, dijkstra_from, dijkstra,
  path_cost, next_hop,
}
use entrouter_line.Relay.Crypto.Toy.{toy}
use entrouter_line.Relay.Fec.{FecConfig}
use entrouter_line.Relay.FecCodec.{FecSender}
use entrouter_line.Relay.FecCodec.SumCode.{sum_code, sum_Recovers}
use entrouter_line.Relay.RelayHeader.{continuation, well_formed}
use entrouter_line.Relay.Tunnel.{new_tunnel, Socket}
use entrouter_line.Relay.Forwarder
use entrouter_line.Relay.Forwarder.{Forwarder}
use entrouter_line.Relay.Forwarder.Routing.{delivery, IsName}
use entrouter_line.Relay.Forwarder.Inbound.{Follows}
use entrouter_line.Relay.Forwarder.Invariant.{IsForwarder}
use entrouter_line.Relay.Forwarder.Loop.{Wake, run}
use entrouter_line.Relay.FecCodec.Expiry.{Schedule}
use entrouter_line.Edge.{
  Read, bytes_read, read_error, accept, accepted, tcp_splitter, tcp_capacity, tcp_reads,
  relay_pieces,
}
use entrouter_line.Edge.Reads.{stream, IsPiece, tcp_reads-stream}
use entrouter_line.Edge.Connections.{Reach, here, accepts, delivers, IsEdge, Reach-IsEdge}
use entrouter_line.Edge.Relayed.{messages, relay_pieces-run}
use entrouter_line.Edge.Queues.{deliver_all, filled, deliver_all-filled, IsIssued}
use entrouter_line.Edge.Dispatch.{dispatch-IsIssued}

abbrev dest : Bytes
dest = 108 ∷ []

abbrev channel : Channel
channel = record { capacity = 2; queue = (1 ∷ []) ∷ []; connected = true }

abbrev edge : Edge
edge = record { dest_node = dest; active_flows = (7, channel) ∷ []; next_flow_id = 8 }

deliver_all-filled_example :
    let e' = deliver_all edge 7 ((2 ∷ []) ∷ (3 ∷ []) ∷ []) in
    (lookup 7 e'.active_flows ≡ some (filled channel ((2 ∷ []) ∷ (3 ∷ []) ∷ [])))
    × (length (filled channel ((2 ∷ []) ∷ (3 ∷ []) ∷ [])).queue ≤ 2)
    × ((j : ℕ) → j ≢ 7 → lookup j e'.active_flows ≡ lookup j edge.active_flows)
deliver_all-filled_example =
    deliver_all-filled edge 7 channel ((2 ∷ []) ∷ (3 ∷ []) ∷ []) refl refl (omega arith)

edge-IsIssued : IsIssued 1 edge
edge-IsIssued j c found = ground arith

abbrev edges : Edges
edges = record { tcp = edge; quic = quic_acceptor dest }

abbrev response : LocalDelivery
response = record { flow_id = 7; app_data = 5 ∷ []; source_node = dest }

dispatch-IsIssued_example :
    (lookup 7 edges.quic.active_flows ≡ some channel
      → dispatch edges response ≡ record edges { quic = deliver edges.quic 7 (5 ∷ []) })
    × (lookup 7 edge.active_flows ≡ some channel
        → 8 ≤ 1_000_000
        → dispatch edges response ≡ record edges { tcp = deliver edge 7 (5 ∷ []) })
    × (1_000_000 ≤ 7
        → dispatch edges response ≡ record edges { quic = deliver edges.quic 7 (5 ∷ []) })
dispatch-IsIssued_example =
    dispatch-IsIssued edges response channel edge-IsIssued (λ j c found. absurd (cc))

abbrev config : FecConfig
config = record { data_shards = 2; parity_shards = 1 }

abbrev syd : Bytes
syd = 115 ∷ []

abbrev lon : Bytes
lon = 108 ∷ []

abbrev sender : FecSender
sender = record { config = config; block_id = 65535; buffer = []; payload_lens = [] }

abbrev one_path : LatencyMatrix
one_path = ((syd, lon), fresh_entry 0 5000) ∷ []

abbrev node : Forwarder
node = record (Forwarder.new syd (Probe.new syd one_path) config) {
  store = new_tunnel 3 (1 ∷ []) ∷ [];
  tunnels = (lon, 0) ∷ [];
  fec_senders = (lon, sender) ∷ [];
}

abbrev peer : Forwarder
peer = record (Forwarder.new lon (Probe.new lon []) config) { fec_receivers = (syd, []) ∷ [] }

lon-IsName : IsName lon
unfolding continuation well_formed
lon-IsName = record { utf8 = refl; short = omega arith }

abbrev direct : RouteEntry
direct = record { next_hop_node = lon; total_rtt = 5000; path = syd ∷ lon ∷ [] }

direct_route : route_from syd one_path lon ≡ some direct
unfolding route_from all_edges collect_nodes relax relax_all visit search walk_back dijkstra_from
    dijkstra path_cost next_hop
direct_route = refl

abbrev socket : Socket
socket address frame = true

abbrev pieces : List Bytes
pieces = (5 ∷ 6 ∷ []) ∷ (7 ∷ []) ∷ []

peer-IsForwarder : IsForwarder peer
peer-IsForwarder = record {
  stored = tt;
  linked = λ peer_id i e. absurd (none≢some e);
  senders = tt;
  receivers = (tt, tt);
  spawned = tt;
  probing = omega arith;
}

-- The timer runs between the two shards and after them.
abbrev schedule : Schedule
schedule = (0, some 2) ∷ (400_000_000, none) ∷ (405_000_000, some 1) ∷ (410_000_000, none) ∷ []

relay_pieces-run_example :
    (node' : Forwarder) × (frames : List (ℕ × Bytes)) × (relay_pieces toy socket sum_code
        (route_from syd)
        node
        lon
        42
        pieces
      ≡ ok (node', [], true))
    × (node'.tasks ≡ (0, frames) ∷ [])
    × ((wakes : List (Wake × Bool))
        → Follows syd frames wakes schedule
        → (peer' : Forwarder) × (run toy socket sum_code (route_from lon) peer wakes
            ≡ ok (peer', map (delivery syd) (messages 42 pieces)))
          × IsForwarder peer')
relay_pieces-run_example =
    relay_pieces-run toy socket sum_code (route_from syd) (route_from lon) node peer syd direct 42 0
      sender [] pieces 0 schedule sum_Recovers peer-IsForwarder sum_Recovers (omega arith)
      lon-IsName (omega arith) (omega arith) direct_route refl refl refl (omega arith) refl
      (omega arith) (omega arith) (omega arith) refl refl (omega arith) (omega arith) refl
      (omega arith)

-- A connection that is accepted, a response for it, and its end.
abbrev opened : Edge
opened = (accept true tcp_capacity (tcp_splitter dest) (accepted true)).0

opened-Reach : Reach true 1 tcp_capacity dest 1 (deliver opened 1 (5 ∷ []))
opened-Reach = delivers 1 opened 1 (5 ∷ []) (accepts 0 (tcp_splitter dest) (accepted true) here)

Reach-IsEdge_example : IsEdge 1 tcp_capacity 1 (deliver opened 1 (5 ∷ []))
Reach-IsEdge_example =
    Reach-IsEdge true 1 tcp_capacity dest 1 (deliver opened 1 (5 ∷ [])) (omega arith) opened-Reach

abbrev reads : List Read
reads = bytes_read (5 ∷ 6 ∷ []) ∷ bytes_read (7 ∷ []) ∷ read_error ∷ bytes_read (8 ∷ []) ∷ []

tcp_reads-stream_example :
    (pieces : List Bytes) × (tcp_reads toy socket sum_code (route_from syd) node lon 42 reads ≡ (
      relay_pieces toy socket sum_code (route_from syd) node lon 42 pieces >>= λ q. ok (q.0, q.1)))
    × (concat pieces ≡ stream reads)
    × All IsPiece pieces
tcp_reads-stream_example = tcp_reads-stream toy socket sum_code (route_from syd) lon 42 node reads
