-- ===== src/Node.antt =====
-- src/main.rs: the start of a node from its configuration.
-- Reading files, parsing certificates and binding sockets are parameters; a socket that is not bound
-- is an error. `Arc`s to one object are one field here. The spawned loops are not run: a probe loop is
-- its peer and the index of its tunnel, and the others work on the state of the node.
pub mod Served
pub mod Refused
mod Tests
use entrouter_line.Base.{
  ℕ, ◌≡◌, ◌⊎◌, inl, inr, Bool, true, false, List, [], ◌∷◌, ◌++◌, Option, none, some, Bytes, insert,
  lookup, nat_eq, string_eq, length, if◌then◌else◌,
}
use entrouter_line.Admin.{AdminState}
use entrouter_line.Config.{
  Config, ConfigError, ListenConfig, PeerConfig, RelayConfig, Result, load, decode_key,
}
use entrouter_line.Edge.{Edges, tcp_splitter, quic_acceptor}
use entrouter_line.Mesh.LatencyMatrix
use entrouter_line.Mesh.Probe
use entrouter_line.Relay.Fec.{FecConfig}
use entrouter_line.Relay.Forwarder
use entrouter_line.Relay.Forwarder.{Forwarder, add_tunnel}
use entrouter_line.Relay.Tunnel.{Peers, new_tunnel}

pub data TlsError : Type 0 where
  unreadable bad_certificates bad_key no_private_key rejected : TlsError

pub data Listener : Type 0 where
  relay_socket tcp_listener quic_endpoint admin_listener : Listener

-- What `run` returns as `Box<dyn Error>`.
pub data StartError : Type 0 where
  config_error : ConfigError → StartError
  tls_error : TlsError → StartError
  not_bound : Listener → StartError

-- `?` on a result with the error on the left.
infixl 5 ◌>>=◌
abbrev pub ◌>>=◌ : {E A B : Type 0} → E ⊎ A → (A → E ⊎ B) → E ⊎ B
inl e >>= f = inl e
inr a >>= f = f a

abbrev pub map_error : {E F A : Type 0} → (E → F) → E ⊎ A → F ⊎ A
map_error f (inl e) = inl (f e)
map_error f (inr a) = inr a

abbrev pub ok_or : {E A : Type 0} → E → Option A → E ⊎ A
ok_or e none = inl e
ok_or e (some a) = inr a

-- Files, the PEM parsers and the TLS library; `private_key` finds a key or none, or fails.
module _ {Certs Key Tls : Type 0} (read : Bytes → Option Bytes) (certs : Bytes → Option Certs)
    (private_key : Bytes → Option (Option Key)) (with_single_cert : Certs → Key → Option Tls) where
  unfoldable pub load_tls_config : Bytes → Bytes → TlsError ⊎ Tls
  load_tls_config cert_path key_path = do
    cert_data ← ok_or unreadable (read cert_path)
    key_data ← ok_or unreadable (read key_path)
    chain ← ok_or bad_certificates (certs cert_data)
    found ← ok_or bad_key (private_key key_data)
    key ← ok_or no_private_key found
    ok_or rejected (with_single_cert chain key)

  -- TLS is on if both paths are set.
  unfoldable pub load_tls : ListenConfig → StartError ⊎ Option Tls
  load_tls l = elim l.tls_cert_path [
    | none ↦ inr none
    | some cert_path ↦ elim l.tls_key_path [
      | none ↦ inr none
      | some key_path ↦ do
        tls ← map_error tls_error (load_tls_config cert_path key_path)
        inr (some tls)
    ]
  ]

abbrev pub unwrap_or : ℕ → Option ℕ → ℕ
unwrap_or d none = d
unwrap_or d (some n) = n

abbrev pub fec_config_of : RelayConfig → FecConfig
fec_config_of r = record {
  data_shards = unwrap_or 10 r.fec_data_shards;
  parity_shards = unwrap_or 4 r.fec_parity_shards;
}

-- The variables of the loop over the peers: the forwarder, the map of the receive loop, and the probe
-- loops that were started.
pub record Boot : Type 0 where
  pub forwarder : Forwarder
  pub peer_crypto_map : Peers
  pub probe_loops : List (Bytes × ℕ)

abbrev pub new_boot : Config → Boot
new_boot c = record {
  forwarder =
      Forwarder.new c.node_id (Probe.new c.node_id LatencyMatrix.new) (fec_config_of c.relay);
  peer_crypto_map = [];
  probe_loops = [];
}

-- The body of the loop behind `decode_key`.
unfoldable pub add_peer : Boot → PeerConfig → Bytes → Boot
add_peer b p key = record {
  forwarder = add_tunnel b.forwarder p.node_id (new_tunnel p.addr key);
  peer_crypto_map = insert p.addr (p.node_id, key) b.peer_crypto_map;
  probe_loops = b.probe_loops ++ (p.node_id, length b.forwarder.store) ∷ [];
}

pub record Node (Tls : Type 0) : Type 0 where
  pub config : Config
  pub boot : Boot
  pub edges : Edges
  pub tls_acceptor : Option Tls

abbrev pub bound : (Listener → Bool) → Listener → StartError ⊎ Unit {0}
bound binds l = if binds l then inr tt else inl (not_bound l)

module _ (base64_decode : Bytes → Option Bytes) where
  unfoldable pub add_peers : Boot → List PeerConfig → Result Boot
  add_peers b [] = inr b
  add_peers b (p ∷ peers) = do key ← decode_key base64_decode p; add_peers (add_peer b p key) peers

  -- `run`, up to the loops that it spawns. `binds` tells which sockets are bound.
  unfoldable pub start :
      {Tls : Type 0}
      → (Bytes → Option Config)
      → (ListenConfig → StartError ⊎ Option Tls)
      → (Listener → Bool)
      → Option Bytes
      → StartError ⊎ Node Tls
  start from_toml tls binds content = do
    c ← map_error config_error (load base64_decode from_toml content)
    relay ← bound binds relay_socket
    b ← map_error config_error (add_peers (new_boot c) c.peers)
    tcp ← bound binds tcp_listener
    acceptor ← tls c.listen
    quic ← bound binds quic_endpoint
    admin ← bound binds admin_listener
    inr (record {
      config = c;
      boot = b;
      edges = record {
        tcp = tcp_splitter c.relay.default_dest;
        quic = quic_acceptor c.relay.default_dest;
      };
      tls_acceptor = acceptor;
    })

abbrev pub admin_state : {Tls : Type 0} → Node Tls → AdminState
admin_state n = record {
  node_id = n.config.node_id;
  region = n.config.region;
  forwarder = n.boot.forwarder;
  tcp_splitter = n.edges.tcp;
  quic_acceptor = n.edges.quic;
  admin_token = n.config.listen.admin_token;
}
