-- ===== src/Config/Tests.antt =====
-- The theorem on src/config.rs at an input, under a decoder that takes a text for its key.
use entrouter_line.Base.{◌≡◌, ◌↔◌, inr, [], ◌∷◌, Option, none, some, Bytes, replicate}
use entrouter_line.Config.{Config, validate}
use entrouter_line.Config.Validity.{IsValid, validate-IsValid}

abbrev plain : Bytes → Option Bytes
plain text = some text

key : Bytes
key = replicate 32 0xAB

config : Config
config = record {
  node_id = 116 ∷ [];
  region = 116 ∷ [];
  listen = record {
    relay_addr = 1;
    tcp_addr = 2;
    quic_addr = 3;
    admin_addr = 4;
    admin_token = none;
    tls_cert_path = none;
    tls_key_path = none;
  };
  mesh = record { probe_interval_ms = 1000 };
  relay = record { default_dest = 112 ∷ []; fec_data_shards = none; fec_parity_shards = none };
  peers = record { node_id = 112 ∷ []; region = 112 ∷ []; addr = 5; shared_key = key } ∷ [];
}

validate-IsValid_example : (validate plain config ≡ inr tt) ↔ IsValid plain config
validate-IsValid_example = validate-IsValid plain config
