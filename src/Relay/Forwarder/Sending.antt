-- ===== src/Relay/Forwarder/Sending.antt =====
-- src/relay/forwarder.rs: payloads that `forward_to` puts into the sender of the next hop.
use entrouter_line.Base.{
  ℕ, ◌%◌, ◌^◌, ◌<◌, ◌≡◌, refl, List, [], ◌∷◌, ◌++◌, Option, none, some, ok, Bytes, length, lt→leb,
  lookup, insert, string_eq,
}
use entrouter_line.Mesh.LatencyMatrix.{LatencyMatrix}
use entrouter_line.Mesh.Router.{RouteEntry}
use entrouter_line.Relay.Crypto.{Aead}
use entrouter_line.Relay.Fec.{ReedSolomon}
use entrouter_line.Relay.FecCodec.{FecSender, submit}
use entrouter_line.Relay.Tunnel.{Socket}
use entrouter_line.Relay.Forwarder.{Forwarder, spawn, forward_to, along, via_hop, over_tunnel}

-- The sender with one payload more.
abbrev pub pushed : FecSender → Bytes → FecSender
pushed s p = record s {
  buffer = s.buffer ++ p ∷ [];
  payload_lens = s.payload_lens ++ (length p % 2 ^ 16) ∷ [];
}

pub submit_more :
    (rs : ReedSolomon) (s : FecSender) (p : Bytes)
    → length (s.buffer ++ p ∷ []) < s.config.data_shards
    → submit rs s p ≡ ok (pushed s p, none)
unfolding submit
submit_more rs s p more = rw (lt→leb s.config.data_shards (length (s.buffer ++ p ∷ [])) more) refl

module _ (a : Aead) (socket : Socket) (rs : ReedSolomon)
    (route : LatencyMatrix → Bytes → Option RouteEntry) where
  -- With a route, a tunnel and a sender, a payload goes into the sender, and the shards that it gives
  -- back into a new task.
  pub forward_to-submit :
      (f : Forwarder) (dest payload : Bytes) (r : RouteEntry) (i : ℕ) (s s' : FecSender)
      (shards : Option (List (ℕ × Bytes)))
      → route f.prober.matrix dest ≡ some r
      → lookup r.next_hop_node f.tunnels ≡ some i
      → lookup r.next_hop_node f.fec_senders ≡ some s
      → submit rs s payload ≡ ok (s', shards)
      → forward_to a socket rs route f dest payload
        ≡ ok (
          record f {
            fec_senders = insert r.next_hop_node s' f.fec_senders;
            tasks = spawn i shards f.tasks;
          },
          [],
          none,
        )
  unfolding forward_to along via_hop over_tunnel
  forward_to-submit f dest payload r i s s' shards routed there sender submitted =
      rw (routed, there, sender, submitted) refl
