-- ===== src/Admin.antt =====
-- src/admin.rs: the two endpoints, and the token that guards one of them.
-- A header is `none` if it is missing or not visible ASCII.
pub mod Access
mod Tests
use entrouter_line.Base.{
  ℕ, ◌≡◌, Bool, true, false, ◌&&◌, List, [], ◌∷◌, Option, none, some, Bytes, bytes_eq, length, take,
  drop, map, if◌then◌else◌,
}
use entrouter_line.Mesh.LatencyMatrix.{LatencyMatrix, all_edges, path_count, as_micros}
use entrouter_line.Relay.Forwarder.{Forwarder, peer_count}
use entrouter_line.Edge.{Edge, active_flow_count}

pub record AdminState : Type 0 where
  pub node_id : Bytes
  pub region : Bytes
  pub forwarder : Forwarder
  pub tcp_splitter : Edge
  pub quic_acceptor : Edge
  pub admin_token : Option Bytes

-- The object that `status` returns.
pub record Status : Type 0 where
  pub node_id : Bytes
  pub region : Bytes
  pub peers : ℕ
  pub tcp_flows : ℕ
  pub quic_flows : ℕ
  pub paths : ℕ
  pub latencies : List (Bytes × Bytes × ℕ)

pub data Response : Type 0 where
  ok_text unauthorized not_found : Response
  status_json : Status → Response

abbrev pub latencies_of : LatencyMatrix → List (Bytes × Bytes × ℕ)
latencies_of m = map (λ (e : Bytes × Bytes × ℕ). (e.0, e.1, as_micros e.2)) (all_edges m)

-- The matrix is the one that the prober of the forwarder holds too.
unfoldable pub status : AdminState → Response
status s =
    let m = s.forwarder.prober.matrix in
    status_json (record {
      node_id = s.node_id;
      region = s.region;
      peers = peer_count s.forwarder;
      tcp_flows = active_flow_count s.tcp_splitter;
      quic_flows = active_flow_count s.quic_acceptor;
      paths = path_count m;
      latencies = latencies_of m;
    })

-- `"Bearer "`.
abbrev pub bearer : Bytes
bearer = 66 ∷ 101 ∷ 97 ∷ 114 ∷ 101 ∷ 114 ∷ 32 ∷ []

abbrev pub starts_with : Bytes → Bytes → Bool
starts_with p value = bytes_eq (take (length p) value) p

-- Whether the middleware lets a request through.
unfoldable pub authorized : Option Bytes → Option Bytes → Bool
authorized none auth_header = true
authorized (some expected) none = false
authorized (some expected) (some value) =
    if starts_with bearer value then bytes_eq (drop 7 value) expected else false

pub data Route : Type 0 where
  health_route status_route other_route : Route

unfoldable pub handle_request : AdminState → Route → Option Bytes → Response
handle_request s health_route auth_header = ok_text
handle_request s status_route auth_header =
    if authorized s.admin_token auth_header then status s else unauthorized
handle_request s other_route auth_header = not_found
