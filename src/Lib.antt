-- ===== src/Lib.antt =====
-- A model of entrouter-line, a packet relay between nodes: data of TCP and QUIC flows is put behind
-- a relay header, grouped into erasure-coded blocks, encrypted, and sent in UDP datagrams over
-- tunnels; nodes measure the times between them and forward by the fastest path.
--
-- Base holds what the modules share: Boolean tests, lists under native numbers, byte strings, maps as
-- association lists, what holds of all values of a map (Base.Everywhere), and runs that may panic with
-- what holds of their result (Base.Fallible).
--
-- Relay models src/relay.
--   Wire: wire.rs, the frame header.
--   Fec: fec.rs, the coding ratios, the loss tracker and the encoder. The Reed-Solomon crate is the
--     parameter ReedSolomon; what the code relies on is Relay.Fec.Encoder.Recovers, which the code of
--     Relay.FecCodec.SumCode keeps.
--   FecCodec: fec_codec.rs, FecSender and FecReceiver.
--   Crypto: crypto.rs. The cipher is the parameter Aead, its promise is Seals, and Relay.Crypto.Toy
--     keeps it.
--   Tunnel: tunnel.rs, Tunnel and the two receive loops. A socket tells which datagrams it sends;
--     what arrives is a sequence of events.
--   RelayHeader, Forwarder: forwarder.rs. A spawned task is a list of shards that are still to be sent;
--     what leaves the node is a list of effects.
-- Mesh models src/mesh.
--   LatencyMatrix: latency_matrix.rs. Probe: probe.rs. Router: router.rs; the forwarder takes what
--     answers for next_hop as a parameter, and Mesh.Router.route_from is the router's own.
-- Edge models src/edge/tcp_split.rs and src/edge/quic_acceptor.rs: what is accepted, the flows with
-- their channels, the read tasks and the delivery loops, and the loop of src/main.rs that hands local
-- deliveries to them. Config models src/config.rs, Admin src/admin.rs, LossyProxy
-- src/bin/lossy_proxy.rs.
-- Node models the start-up in src/main.rs, up to the loops that it spawns; files, PEM parsers, TLS
-- and the binding of sockets are parameters.
-- TestHarness models src/bin/test_harness.rs: its sender, its proxy, its receiver and what it counts.
--
-- Numbers are natural numbers; a machine integer is cut by % 2 ^ w where the code wraps or casts. A
-- Duration is a number of nanoseconds, an Instant the time since some start, a String its bytes. The
-- loss ratios, which the source keeps as f64, are fractions. A DashMap is an association list.
--
-- Fuel: the loop over a gap of sequence numbers (Relay.Tunnel.catch_up) runs on 2 ^ 64 rounds, as
-- many as there are sequence numbers. The search of the router runs on one round more than
-- Mesh.Router.potential, which each round makes smaller; its walk back on one round for each entry of
-- prev and one more.
--
-- Not modelled: the timers themselves and the scheduler, whose order of events is given; the TLS and
-- QUIC libraries and the making of certificates and of server configurations, which only call them;
-- command lines and logging; the benchmarks. They call what is modelled. A delivery channel has room for
-- all deliveries of a block, or is closed for all of them; waiting for room is not modelled. A frame
-- counts as sent once it is handed to the socket, which may lose it.
pub mod Base
pub mod Relay
pub mod Mesh
pub mod Config
pub mod Edge
pub mod Admin
pub mod LossyProxy
pub mod Node
pub mod TestHarness
