-- ===== src/Relay.antt =====
-- src/relay: framing, erasure coding, encryption, tunnels and forwarding.
pub mod Wire
pub mod Fec
pub mod FecCodec
pub mod Crypto
pub mod Tunnel
pub mod RelayHeader
pub mod Forwarder
