-- ===== src/Edge.antt =====
-- src/edge: flows of TCP connections and QUIC streams. `TcpSplitter` (tcp_split.rs) and `QuicAcceptor`
-- (quic_acceptor.rs) have the same state; they differ in the first flow identifier, the size of a
-- channel, and whether what is read is cut into chunks. A connection is a sequence of reads.
pub mod Queues
pub mod Dispatch
pub mod Relayed
pub mod Reads
pub mod Connections
mod Tests
use entrouter_line.Base.{
  ℕ, zero, suc, ◌+◌, ◌%◌, ◌^◌, ◌≡◌, Bool, true, false, not, ◌&&◌, List, [], ◌∷◌, ◌++◌, Option, none,
  some, Run, ok, panic, ◌>>=◌, Bytes, length, ltb, chunks, if◌then◌else◌, lookup, insert, remove,
  nat_eq, is_some,
}
use entrouter_line.Mesh.LatencyMatrix.{LatencyMatrix}
use entrouter_line.Mesh.Router.{RouteEntry}
use entrouter_line.Relay.Crypto.{Aead}
use entrouter_line.Relay.Fec.{ReedSolomon}
use entrouter_line.Relay.Tunnel.{Socket}
use entrouter_line.Relay.Forwarder.{Forwarder, Effect, ForwarderError, LocalDelivery, send_to_node}

-- A bounded channel with what waits in it, and whether its receiver still is there.
pub record Channel : Type 0 where
  pub capacity : ℕ
  pub queue : List Bytes
  pub connected : Bool

pub record Edge : Type 0 where
  pub dest_node : Bytes
  pub active_flows : List (ℕ × Channel)
  pub next_flow_id : ℕ

abbrev pub tcp_splitter : Bytes → Edge
tcp_splitter dest_node = record { dest_node = dest_node; active_flows = []; next_flow_id = 1 }

abbrev pub quic_acceptor : Bytes → Edge
quic_acceptor dest_node = record {
  dest_node = dest_node;
  active_flows = [];
  next_flow_id = 1_000_000;
}

abbrev pub tcp_capacity : ℕ
tcp_capacity = 2048

abbrev pub quic_capacity : ℕ
quic_capacity = 256

abbrev pub max_relay_data : ℕ
max_relay_data = 1400

-- The start of `handle_connection` or `handle_stream`: the identifier and its channel.
unfoldable pub open_flow : ℕ → Edge → Edge × ℕ
open_flow capacity e =
    let flow_id = e.next_flow_id in
    (
      record e {
        next_flow_id = (flow_id + 1) % 2 ^ 32;
        active_flows =
            insert flow_id (record { capacity = capacity; queue = []; connected = true })
              e.active_flows;
      },
      flow_id,
    )

-- The end, when one of the two tasks is over.
unfoldable pub close_flow : Edge → ℕ → Edge
close_flow e flow_id = record e { active_flows = remove flow_id e.active_flows }

-- What `accept` of a listener gives: a connection, and whether its handshake would succeed, or an
-- error.
pub data Accept : Type 0 where
  accepted : Bool → Accept
  accept_error : Accept

-- A round of `listen`: with TLS, a connection is handled only after its handshake. A QUIC endpoint is
-- like a listener with TLS, but it opens no flow yet.
unfoldable pub accept : Bool → ℕ → Edge → Accept → Edge × Option ℕ
accept tls capacity e accept_error = (e, none)
accept tls capacity e (accepted handshake) =
    let opened = open_flow capacity e in
    if tls && not handshake then (e, none) else (opened.0, some opened.1)

-- The streams of a QUIC connection in turn, each of them a flow, up to the first error.
unfoldable pub accept_streams : ℕ → Edge → List Bool → Edge × List ℕ
accept_streams capacity e [] = (e, [])
accept_streams capacity e (false ∷ streams) = (e, [])
accept_streams capacity e (true ∷ streams) =
    let opened = open_flow capacity e in
    let rest = accept_streams capacity opened.0 streams in (rest.0, opened.1 ∷ rest.1)

-- `try_send`: a full or a closed channel drops the data.
unfoldable pub try_send : Bytes → Channel → Channel
try_send payload c =
    if c.connected && ltb (length c.queue) c.capacity
    then record c { queue = c.queue ++ payload ∷ [] }
    else c

abbrev pub delivered_to : ℕ → Bytes → List (ℕ × Channel) → Option Channel → List (ℕ × Channel)
delivered_to flow_id payload flows none = flows
delivered_to flow_id payload flows (some c) = insert flow_id (try_send payload c) flows

unfoldable pub deliver : Edge → ℕ → Bytes → Edge
deliver e flow_id payload = record e {
  active_flows = delivered_to flow_id payload e.active_flows (lookup flow_id e.active_flows);
}

unfoldable pub delivery_loop : Edge → List LocalDelivery → Edge
delivery_loop e [] = e
delivery_loop e (d ∷ ds) = delivery_loop (deliver e d.flow_id d.app_data) ds

-- A round of the write task: it takes what has waited longest, and ends if the client is gone.
unfoldable pub take_response : Channel → Channel × Option Bytes
take_response c = elim c.queue [
  | [] ↦ (c, none)
  | payload ∷ rest ↦ (record c { queue = rest }, some payload)
]

abbrev pub active_flow_count : Edge → ℕ
active_flow_count e = length e.active_flows

-- What a read gives: bytes (none of them at the end), or an error.
pub data Read : Type 0 where
  bytes_read : Bytes → Read
  read_error : Read

module _ (a : Aead) (socket : Socket) (rs : ReedSolomon)
    (route : LatencyMatrix → Bytes → Option RouteEntry) where
  -- Pieces of one flow in turn, until one is refused; whether all were taken.
  unfoldable pub relay_pieces :
      Forwarder → Bytes → ℕ → List Bytes → Run (Forwarder × List Effect × Bool)
  relay_pieces f dest_node flow_id [] = ok (f, [], true)
  relay_pieces f dest_node flow_id (piece ∷ pieces) = do
    r ← send_to_node a socket rs route f dest_node flow_id piece
    let rest = relay_pieces r.0 dest_node flow_id pieces >>= λ q. ok (q.0, r.1 ++ q.1, q.2)
    if is_some r.2 then ok (r.0, r.1, false) else rest

  -- The read task of a TCP connection.
  unfoldable pub tcp_reads : Forwarder → Bytes → ℕ → List Read → Run (Forwarder × List Effect)
  tcp_reads f dest_node flow_id [] = ok (f, [])
  tcp_reads f dest_node flow_id (read_error ∷ reads) = ok (f, [])
  tcp_reads f dest_node flow_id (bytes_read [] ∷ reads) = ok (f, [])
  tcp_reads f dest_node flow_id (bytes_read (b ∷ bs) ∷ reads) = do
    r ← relay_pieces f dest_node flow_id (chunks max_relay_data (b ∷ bs))
    let rest = tcp_reads r.0 dest_node flow_id reads >>= λ q. ok (q.0, r.1 ++ q.1)
    if r.2 then rest else ok (r.0, r.1)

  -- The read task of a QUIC stream, which relays each read whole.
  unfoldable pub quic_reads : Forwarder → Bytes → ℕ → List Read → Run (Forwarder × List Effect)
  quic_reads f dest_node flow_id [] = ok (f, [])
  quic_reads f dest_node flow_id (read_error ∷ reads) = ok (f, [])
  quic_reads f dest_node flow_id (bytes_read bs ∷ reads) = do
    r ← relay_pieces f dest_node flow_id (bs ∷ [])
    let rest = quic_reads r.0 dest_node flow_id reads >>= λ q. ok (q.0, r.1 ++ q.1)
    if r.2 then rest else ok (r.0, r.1)

-- src/main.rs: the two edges of a node, and the loop that hands them local deliveries.
pub record Edges : Type 0 where
  pub tcp : Edge
  pub quic : Edge

unfoldable pub dispatch : Edges → LocalDelivery → Edges
dispatch es d =
    if ltb d.flow_id 1_000_000
    then record es { tcp = deliver es.tcp d.flow_id d.app_data }
    else record es { quic = deliver es.quic d.flow_id d.app_data }

unfoldable pub dispatch_all : Edges → List LocalDelivery → Edges
dispatch_all es [] = es
dispatch_all es (d ∷ ds) = dispatch_all (dispatch es d) ds
