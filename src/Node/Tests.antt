-- ===== src/Node/Tests.antt =====
-- The theorems on the start of src/main.rs at inputs, under a decoder that takes a text for its key.
use entrouter_line.Base.{
  ℕ, ◌≡◌, ◌≢◌, ◌⊎◌, inr, refl, Bool, true, [], ◌∷◌, Option, none, some, Bytes, All, get_or, ap,
  replicate, arith,
}
use entrouter_line.Config.{Config, PeerConfig, ListenConfig}
use entrouter_line.Config.Validity.{IsValid, HasKey, decode_key-length}
use entrouter_line.Mesh.LatencyMatrix.{LatencyMatrix}
use entrouter_line.Mesh.Router.{RouteEntry}
use entrouter_line.Relay.Crypto.Toy.{toy}
use entrouter_line.Relay.FecCodec.SumCode.{sum_code}
use entrouter_line.Relay.Forwarder.Steps.{Reach}
use entrouter_line.Relay.Tunnel.{Socket}
use entrouter_line.Node.{Listener, Node, StartError, new_boot, start}
use entrouter_line.Node.Served.{IsApart, HasService, start-HasService}
use entrouter_line.Node.Refused.{Started, start-Started}

abbrev plain : Bytes → Option Bytes
plain text = some text

abbrev key : ℕ → Bytes
key b = replicate 32 b

abbrev peer : ℕ → ℕ → PeerConfig
peer name addr = record {
  node_id = name ∷ [];
  region = 114 ∷ [];
  addr = addr;
  shared_key = key name;
}

abbrev config : Config
config = record {
  node_id = 115 ∷ [];
  region = 114 ∷ [];
  listen = record {
    relay_addr = 1;
    tcp_addr = 2;
    quic_addr = 3;
    admin_addr = 4;
    admin_token = none;
    tls_cert_path = none;
    tls_key_path = none;
  };
  mesh = record { probe_interval_ms = 1000 };
  relay = record { default_dest = 108 ∷ []; fec_data_shards = none; fec_parity_shards = some 2 };
  peers = peer 108 5 ∷ peer 102 6 ∷ [];
}

peer-HasKey : (name addr : ℕ) → HasKey plain (peer name addr)
peer-HasKey name addr =
    (key name, decode_key-length plain (peer name addr) (key name) refl refl, refl)

config-IsValid : IsValid plain config
config-IsValid = record {
  named = omega arith;
  some_peer = omega arith;
  keys = (peer-HasKey 108 5, (peer-HasKey 102 6, tt));
  tls = refl;
}

names_differ : (peer 102 6).node_id ≢ (peer 108 5).node_id
names_differ e = let heads : 102 ≡ 108 = ap (λ (n : Bytes). get_or n 0 0) e in omega (arith, heads)

config-IsApart : IsApart config.peers
config-IsApart = (((λ e. omega (arith, e), names_differ), tt), (tt, tt))

abbrev socket : Socket
socket address frame = true

abbrev route : LatencyMatrix → Bytes → Option RouteEntry
route m dest = none

abbrev from_toml : Bytes → Option Config
from_toml content = some config

abbrev no_tls : ListenConfig → StartError ⊎ Option ℕ
no_tls l = inr none

abbrev all_bound : Listener → Bool
all_bound l = true

start-HasService_example :
    (n : Node ℕ) × (start plain from_toml no_tls all_bound (some []) ≡ inr n)
    × (n.config ≡ config)
    × (n.tls_acceptor ≡ none)
    × Reach toy socket sum_code route (new_boot config).forwarder n.boot.forwarder
    × All (HasService plain toy socket sum_code route n.boot) config.peers
start-HasService_example =
    start-HasService plain toy socket sum_code route from_toml no_tls none [] config refl
      config-IsValid config-IsApart refl

-- The node that starts.
running : (n : Node ℕ) × (start plain from_toml no_tls all_bound (some []) ≡ inr n)
running =
    let (n, run, same, secured, reached, served) =
      start-HasService plain toy socket sum_code route from_toml no_tls none [] config refl
        config-IsValid config-IsApart refl in
    (n, run)

start-Started_example : Started plain all_bound no_tls running.0
start-Started_example = start-Started plain from_toml no_tls all_bound (some []) running.0 running.1
