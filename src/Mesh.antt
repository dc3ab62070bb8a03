-- ===== src/Mesh.antt =====
-- src/mesh: latencies between the nodes, probes that measure them, routes over them.
pub mod LatencyMatrix
pub mod Probe
pub mod Router
