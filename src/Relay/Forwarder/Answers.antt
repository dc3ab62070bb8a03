-- ===== src/Relay/Forwarder/Answers.antt =====
-- src/relay/forwarder.rs, `forward_to`: its answers, in any state that a forwarder reaches.
use entrouter_line.Base.{
  ℕ, ◌<◌, ◌≡◌, refl, sym, ap, ◌∙◌, ◌⊎◌, inl, inr, true, List, [], ◌∷◌, ◌++◌, Option, none, some, ok,
  Bytes, string_eq, length, length-append, lookup, insert, is_some, EachValue-lookup, Option-cases,
  arith,
}
use mathlib.Core.Bool.{false≢true}
use mathlib.Core.Path.{subst}
use native.Mathlib.Decide.{dec_lt}
use entrouter_line.Mesh.LatencyMatrix.{LatencyMatrix}
use entrouter_line.Mesh.Router.{RouteEntry}
use entrouter_line.Relay.Crypto.{Aead}
use entrouter_line.Relay.Fec.{FecConfig, ReedSolomon}
use entrouter_line.Relay.Fec.Encoder.{Recovers}
use entrouter_line.Relay.FecCodec.{FecSender, submit}
use entrouter_line.Relay.FecCodec.Sender.{submit-flushed}
use entrouter_line.Relay.FecCodec.Shapes.{IsSender}
use entrouter_line.Relay.Tunnel.{Socket}
use entrouter_line.Relay.Forwarder.{
  Forwarder, no_route, no_tunnel, spawn, forward_to, along, via_hop,
}
use entrouter_line.Relay.Forwarder.Sending.{forward_to-submit}
use entrouter_line.Relay.Forwarder.Invariant.{IsForwarder}

-- A sender takes any payload.
submit-decided :
    (rs : ReedSolomon) (c : FecConfig) (s : FecSender) (payload : Bytes)
    → Recovers rs c.data_shards c.parity_shards
    → 0 < c.data_shards
    → IsSender c s
    → (t : FecSender) × (shards : Option (List (ℕ × Bytes))) × (submit rs s payload
        ≡ ok (t, shards))
submit-decided rs c s payload r pos h =
    let r' : Recovers rs s.config.data_shards s.config.parity_shards =
      subst (λ (d : FecConfig). Recovers rs d.data_shards d.parity_shards) (sym h.configured) r in
    let k : s.config.data_shards ≡ c.data_shards =
      ap (λ (d : FecConfig). d.data_shards) h.configured in
    let size = length-append s.buffer (payload ∷ []) in
    let (room, full) = submit-flushed rs s payload r' (omega (arith, h.partial, k, pos)) in
    elim (dec_lt (length (s.buffer ++ payload ∷ [])) s.config.data_shards) [
      | yes more ↦ let (t, run, kept, number, config) = room more in (t, none, run)
      | no last ↦ (_, _, full (omega (arith, last, size, h.partial, k, pos)))
    ]

HasKey-lookup :
    {V : Type 0} (k : Bytes) (m : List (Bytes × V))
    → is_some (lookup k m) ≡ true
    → (v : V) × (lookup k m ≡ some v)
HasKey-lookup k m has = elim (Option-cases (lookup k m)) [
  | inl missing ↦ absurd (false≢true (sym (ap is_some missing) ∙ has))
  | inr found ↦ found
]

module _ (a : Aead) (socket : Socket) (rs : ReedSolomon)
    (route : LatencyMatrix → Bytes → Option RouteEntry) where
  -- In a state that keeps the invariant, with an erasure code for its configuration, `forward_to`
  -- returns, sends nothing itself, and never fails to send: without a route, or with no tunnel to the
  -- next hop, it says so and leaves the state alone; otherwise the payload goes into the sender of the
  -- next hop, and the shards that the sender gives back into a task over the hop's tunnel.
  pub forward_to-decided :
      (f : Forwarder) (dest payload : Bytes)
      → IsForwarder f
      → Recovers rs f.fec_config.data_shards f.fec_config.parity_shards
      → 0 < f.fec_config.data_shards
      → ((route f.prober.matrix dest ≡ none)
          × (forward_to a socket rs route f dest payload ≡ ok (f, [], some (no_route dest))))
        ⊎ (((r : RouteEntry) × (route f.prober.matrix dest ≡ some r)
              × (lookup r.next_hop_node f.tunnels ≡ none)
              × (forward_to a socket rs route f dest payload
                  ≡ ok (f, [], some (no_tunnel r.next_hop_node))))
            ⊎ ((r : RouteEntry) × (i : ℕ) × (s : FecSender) × (t : FecSender) × (shards : Option
                  (List (ℕ × Bytes)))
                × (route f.prober.matrix dest ≡ some r)
                × (lookup r.next_hop_node f.tunnels ≡ some i)
                × (lookup r.next_hop_node f.fec_senders ≡ some s)
                × (submit rs s payload ≡ ok (t, shards))
                × (forward_to a socket rs route f dest payload
                    ≡ ok (
                      record f {
                        fec_senders = insert r.next_hop_node t f.fec_senders;
                        tasks = spawn i shards f.tasks;
                      },
                      [],
                      none,
                    ))))
  unfolding forward_to along via_hop
  forward_to-decided f dest payload h code pos = elim (Option-cases (route f.prober.matrix dest)) [
    | inl lost ↦ inl (lost, rw (lost, forward_to) refl)
    | inr (r, routed) ↦ elim (Option-cases (lookup r.next_hop_node f.tunnels)) [
      | inl missing ↦ inr (inl (r, routed, missing, rw (routed, missing) refl))
      | inr (i, there) ↦
          let (bound, sends, receives) = h.linked r.next_hop_node i there in
          let (s, sender) = HasKey-lookup r.next_hop_node f.fec_senders sends in
          let kept =
            EachValue-lookup (IsSender f.fec_config) r.next_hop_node s f.fec_senders sender
              h.senders in
          let (t, shards, run) = submit-decided rs f.fec_config s payload code pos kept in
          inr (
            inr (
              r,
              i,
              s,
              t,
              shards,
              routed,
              there,
              sender,
              run,
              forward_to-submit a socket rs route f dest payload r i s t shards routed there sender
                  run,
            ))
    ]
  ]
