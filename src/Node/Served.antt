-- ===== src/Node/Served.antt =====
-- src/main.rs: every peer of a valid configuration is served by the node that it starts.
use entrouter_line.Base.{
  ℕ, ◌≡◌, ◌≢◌, refl, ◌∙◌, ◌⊎◌, inr, true, List, [], ◌∷◌, Option, some, Bytes, lookup,
  lookup-insert_self, lookup-insert_ne, nat_eq, string_eq, length, get_elem?, get_elem?-append,
  get_elem?-append_length, All,
}
use entrouter_line.Config.{
  Config, PeerConfig, ListenConfig, key_size, decode_key, validate, load, parsed, validated,
}
use entrouter_line.Config.Validity.{HasKey, IsValid, validate-IsValid}
use entrouter_line.Edge.{tcp_splitter, quic_acceptor}
use entrouter_line.Mesh.LatencyMatrix.{LatencyMatrix}
use entrouter_line.Mesh.Router.{RouteEntry}
use entrouter_line.Relay.Crypto.{Aead}
use entrouter_line.Relay.Fec.{ReedSolomon}
use entrouter_line.Relay.Forwarder.{Forwarder, add_tunnel}
use entrouter_line.Relay.Forwarder.Steps.{Reach, here, next, peer}
use entrouter_line.Relay.Tunnel.{Socket, new_tunnel}
use entrouter_line.Node.{Boot, new_boot, add_peer, add_peers, start, Node, StartError}

-- What is sent to the peer goes to its address under its key, what comes from there is opened with its
-- key and counts as its own, and a probe loop runs over its tunnel.
unfoldable pub IsServed : Boot → PeerConfig → Bytes → Type 0
IsServed b p key =
    (lookup p.addr b.peer_crypto_map ≡ some (p.node_id, key))
    × ((i : ℕ) × (lookup p.node_id b.forwarder.tunnels ≡ some i)
        × (get_elem? b.forwarder.store i ≡ some (new_tunnel p.addr key)))

abbrev pub Apart : PeerConfig → List PeerConfig → Type 0
Apart q peers = All (λ (p : PeerConfig). (p.addr ≢ q.addr) × (p.node_id ≢ q.node_id)) peers

-- No two peers share an address or a name.
abbrev pub IsApart : List PeerConfig → Type 0
IsApart [] = Unit {0}
IsApart (p ∷ peers) = Apart p peers × IsApart peers

add_peer-IsServed : (b : Boot) (p : PeerConfig) (key : Bytes) → IsServed (add_peer b p key) p key
unfolding IsServed add_peer add_tunnel
add_peer-IsServed b p key = (
  lookup-insert_self p.addr (p.node_id, key) b.peer_crypto_map,
  (
    length b.forwarder.store,
    lookup-insert_self p.node_id (length b.forwarder.store) b.forwarder.tunnels,
    get_elem?-append_length b.forwarder.store (new_tunnel p.addr key),
  ),
)

add_peer-IsServed_other :
    (b : Boot) (p q : PeerConfig) (key key' : Bytes)
    → p.addr ≢ q.addr
    → p.node_id ≢ q.node_id
    → IsServed b q key'
    → IsServed (add_peer b p key) q key'
unfolding IsServed add_peer add_tunnel
add_peer-IsServed_other b p q key key' addr name (entry, (i, tunnel, stored)) = (
  lookup-insert_ne p.addr q.addr (p.node_id, key) b.peer_crypto_map addr ∙ entry,
  (
    i,
    lookup-insert_ne p.node_id q.node_id (length b.forwarder.store) b.forwarder.tunnels name
        ∙ tunnel,
    get_elem?-append b.forwarder.store (new_tunnel p.addr key ∷ []) i (new_tunnel q.addr key')
        stored,
  ),
)

module _ (base64_decode : Bytes → Option Bytes) (a : Aead) (socket : Socket) (rs : ReedSolomon)
    (route : LatencyMatrix → Bytes → Option RouteEntry) where
  -- A peer is served under the key that its configuration decodes to.
  abbrev pub HasService : Boot → PeerConfig → Type 0
  HasService b p =
      (key : Bytes) × (decode_key base64_decode p ≡ inr key)
      × (length key ≡ key_size)
      × IsServed b p key

  -- What the loop over the peers ends with.
  Added : Forwarder → Boot → List PeerConfig → Boot → Type 0
  Added f b peers b' =
      (add_peers base64_decode b peers ≡ inr b')
      × All (HasService b') peers
      × ((q : PeerConfig) (key : Bytes) → Apart q peers → IsServed b q key → IsServed b' q key)
      × Reach a socket rs route f b'.forwarder

  add_peers-Added :
      (f : Forwarder) (b : Boot) (peers : List PeerConfig)
      → Reach a socket rs route f b.forwarder
      → All (HasKey base64_decode) peers
      → IsApart peers
      → (b' : Boot) × Added f b peers b'
  unfolding add_peers Added add_peer
  add_peers-Added f b [] reach keys apart = (b, (refl, tt, λ q key out h. h, reach))
  add_peers-Added f b (p ∷ peers) reach ((key, decoded, size), keys) (others, apart) =
      let b₁ = add_peer b p key in
      let reach₁ = next reach (peer b.forwarder p.node_id p.addr key) in
      let (b', (run, served, keep, reach')) = add_peers-Added f b₁ peers reach₁ keys apart in
      (
        b',
        (
          rw (decoded, add_peers) run,
          ((key, decoded, size, keep p key others (add_peer-IsServed b p key)), served),
          λ q key' out h.
              keep q key' out.1 (add_peer-IsServed_other b p q key key' out.0.0 out.0.1 h),
          reach',
        ),
      )

  load-validated :
      (from_toml : Bytes → Option Config) (content : Bytes) (c : Config)
      → from_toml content ≡ some c
      → validate base64_decode c ≡ inr tt
      → load base64_decode from_toml (some content) ≡ inr c
  unfolding load parsed validated
  load-validated from_toml content c read valid = rw (read, valid) refl

  -- A valid configuration of which no two peers share an address or a name, where the TLS files load
  -- and all sockets are bound: the node starts, with the forwarder in a state that a new one reaches.
  -- Every peer's key is 32 bytes long, what is sent to the peer goes to its address under that key,
  -- packets from its address are opened with it and count as the peer's.
  pub start-HasService :
      {Tls : Type 0} (from_toml : Bytes → Option Config)
      (tls : ListenConfig → StartError ⊎ Option Tls) (acceptor : Option Tls) (content : Bytes)
      (c : Config)
      → from_toml content ≡ some c
      → IsValid base64_decode c
      → IsApart c.peers
      → tls c.listen ≡ inr acceptor
      → (n : Node Tls) × (start base64_decode from_toml tls (λ l. true) (some content) ≡ inr n)
        × (n.config ≡ c)
        × (n.tls_acceptor ≡ acceptor)
        × Reach a socket rs route (new_boot c).forwarder n.boot.forwarder
        × All (HasService n.boot) c.peers
  unfolding start Added
  start-HasService from_toml tls acceptor content c read valid apart secured =
      let loaded =
        load-validated from_toml content c read ((validate-IsValid base64_decode c).1 valid) in
      let (b, (run, served, keep, reach)) =
        add_peers-Added (new_boot c).forwarder (new_boot c) c.peers here valid.keys apart in
      (
        record {
          config = c;
          boot = b;
          edges = record {
            tcp = tcp_splitter c.relay.default_dest;
            quic = quic_acceptor c.relay.default_dest;
          };
          tls_acceptor = acceptor;
        },
        rw (loaded, run, secured) refl,
        refl,
        refl,
        reach,
        served,
      )
