-- ===== src/Config.antt =====
-- src/config.rs: what a configuration must satisfy, and the keys of the peers.
-- Texts and paths are bytes, addresses numbers. The base64 decoder, the file system and the TOML
-- parser are parameters. An error message is a constructor with what the message names.
pub mod Validity
mod Tests
use entrouter_line.Base.{
  ℕ, ◌≡◌, ◌⊎◌, inl, inr, List, [], ◌∷◌, Option, none, some, Bytes, length, ◌==◌, if◌then◌else◌,
}

pub record ListenConfig : Type 0 where
  pub relay_addr : ℕ
  pub tcp_addr : ℕ
  pub quic_addr : ℕ
  pub admin_addr : ℕ
  pub admin_token : Option Bytes
  pub tls_cert_path : Option Bytes
  pub tls_key_path : Option Bytes

pub record MeshConfig : Type 0 where
  pub probe_interval_ms : ℕ

pub record RelayConfig : Type 0 where
  pub default_dest : Bytes
  pub fec_data_shards : Option ℕ
  pub fec_parity_shards : Option ℕ

pub record PeerConfig : Type 0 where
  pub node_id : Bytes
  pub region : Bytes
  pub addr : ℕ
  pub shared_key : Bytes

pub record Config : Type 0 where
  pub node_id : Bytes
  pub region : Bytes
  pub listen : ListenConfig
  pub mesh : MeshConfig
  pub relay : RelayConfig
  pub peers : List PeerConfig

pub data Invalid : Type 0 where
  empty_node_id no_peers cert_without_key key_without_cert : Invalid
  invalid_base64 : Bytes → Invalid
  wrong_key_length : Bytes → ℕ → Invalid

pub data ConfigError : Type 0 where
  io parse : ConfigError
  validation : Invalid → ConfigError

-- `Result`, the error on the left.
abbrev pub Result : Type 0 → Type 0
Result A = ConfigError ⊎ A

abbrev pub key_size : ℕ
key_size = 32

-- The match on the two paths.
unfoldable pub check_tls : ListenConfig → Result (Unit {0})
check_tls l = elim l.tls_cert_path [
  | none ↦ elim l.tls_key_path [ none ↦ inr tt | some key ↦ inl (validation key_without_cert) ]
  | some cert ↦ elim l.tls_key_path [ none ↦ inl (validation cert_without_key) | some key ↦ inr tt ]
]

module _ (base64_decode : Bytes → Option Bytes) where
  key_of : Bytes → Option Bytes → Result Bytes
  key_of node_id none = inl (validation (invalid_base64 node_id))
  key_of node_id (some key) =
      if length key == key_size
      then inr key
      else inl (validation (wrong_key_length node_id (length key)))

  unfoldable pub decode_key : PeerConfig → Result Bytes
  unfolding key_of
  decode_key p = key_of p.node_id (base64_decode p.shared_key)

  -- One round of the loop over the peers, before the rest of the checks.
  after_key : Bytes → Option Bytes → Result (Unit {0}) → Result (Unit {0})
  after_key node_id none rest = inl (validation (invalid_base64 node_id))
  after_key node_id (some key) rest =
      if length key == key_size
      then rest
      else inl (validation (wrong_key_length node_id (length key)))

  unfoldable pub check_peers : List PeerConfig → Result (Unit {0}) → Result (Unit {0})
  unfolding after_key
  check_peers [] rest = rest
  check_peers (p ∷ peers) rest =
      after_key p.node_id (base64_decode p.shared_key) (check_peers peers rest)

  unfoldable pub validate : Config → Result (Unit {0})
  validate c =
      if length c.node_id == 0
      then inl (validation empty_node_id)
      else if length c.peers == 0
      then inl (validation no_peers)
      else check_peers c.peers (check_tls c.listen)

  unfoldable pub validated : Config → Result (Unit {0}) → Result Config
  validated c (inl e) = inl e
  validated c (inr _) = inr c

  unfoldable pub parsed : Option Config → Result Config
  unfolding validated
  parsed none = inl parse
  parsed (some c) = validated c (validate c)

  -- A file that cannot be read is `none`.
  unfoldable pub load : (Bytes → Option Config) → Option Bytes → Result Config
  unfolding parsed
  load from_toml none = inl io
  load from_toml (some content) = parsed (from_toml content)
