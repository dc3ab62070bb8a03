-- ===== src/Relay/Forwarder/Inbound.antt =====
-- src/relay/forwarder.rs: the shards of a block, through the loop of `run` and its timer, as deliveries.
use entrouter_line.Base.{
  ℕ, Bool, Bool-cases, bytes_eq, OnOk-ok, none≢some, some-injective, if◌then◌else◌, ◌+◌, ◌^◌, ◌≤◌,
  ◌<◌, ◌≡◌, refl, sym, ap, ◌∙◌, true, List, [], ◌∷◌, ◌++◌, append-nil, append_assoc, map, Option,
  none, some, ok, ◌>>=◌, Bytes, All, ◌⊎◌, inl, inr, length, lookup, insert, string_eq, nat_eq,
  lookup-insert_self, >>=_ok, ok-injective,
}
use mathlib.Core.Path.{subst}
use entrouter_line.Mesh.LatencyMatrix.{LatencyMatrix}
use entrouter_line.Mesh.Router.{RouteEntry}
use entrouter_line.Relay.Crypto.{Aead}
use entrouter_line.Relay.Fec.{FecConfig, ReedSolomon}
use entrouter_line.Relay.Fec.Encoder.{Recovers}
use entrouter_line.Relay.FecCodec.{FecSender, FecReceiver, flush, receive_shard, expire_old}
use entrouter_line.Relay.FecCodec.Payloads.{IsPayload}
use entrouter_line.Relay.FecCodec.Expiry.{
  deliver_moments, Schedule, moment_of, arrivals, IsTimely, flush-deliver_moments,
}
use entrouter_line.Relay.FecCodec.RoundTrip.{found, arrive, Distinct}
use entrouter_line.Relay.FecCodec.Sender.{framing, block_of, flushed}
use entrouter_line.Relay.Forwarder.Flushing.{flush_fec-due, ticked}
use entrouter_line.Relay.Forwarder.Handling.{handle_inbound-IsForwarder}
use entrouter_line.Relay.Forwarder.Invariant.{IsForwarder}
use entrouter_line.Relay.Forwarder.Loop.{Wake, inbound, tick, expire_all, run}
use entrouter_line.Relay.Forwarder.Steps.{flush_fec-IsForwarder}
use entrouter_line.Relay.Tunnel.{Socket, ReceivedPacket}
use entrouter_line.Relay.Wire.{packet_data, packet_parity}
use entrouter_line.Relay.Forwarder.{
  Forwarder, Effect, handle_inbound, route_all, inbound_shard, reassembled,
}
use entrouter_line.Relay.Forwarder.Routing.{Message, relayed, delivery, IsName, route_all-relayed}

-- A packet that carries a shard.
abbrev pub IsShard : ReceivedPacket → Type 0
IsShard packet = (packet.packet_type ≡ packet_data) ⊎ (packet.packet_type ≡ packet_parity)

-- What wakes the loop is what a schedule says: the timer, and packets of a peer with frames of a list,
-- while the edge takes deliveries.
unfoldable pub Follows : Bytes → List (ℕ × Bytes) → List (Wake × Bool) → Schedule → Type 0
Follows from_peer frames [] [] = Unit
Follows from_peer frames ((tick now, up) ∷ wakes) ((t, none) ∷ schedule) =
    (now ≡ t) × Follows from_peer frames wakes schedule
Follows from_peer frames ((inbound now from packet, up) ∷ wakes) ((t, some i) ∷ schedule) =
    (now ≡ t)
    × (from ≡ from_peer)
    × (up ≡ true)
    × IsShard packet
    × (packet.payload ≡ (arrive frames (t, i)).1)
    × Follows from_peer frames wakes schedule
Follows _ _ _ _ = ⊥

All-split {ℓ} :
    {A : Type ℓ} (P : A → Type 0) (xs ys : List A) → All P (xs ++ ys) → All P xs × All P ys
All-split P [] ys h = (tt, h)
All-split P (x ∷ xs) ys (p, h) = let (l, r) = All-split P xs ys h in ((p, l), r)

module _ (a : Aead) (socket : Socket) (rs : ReedSolomon)
    (route : LatencyMatrix → Bytes → Option RouteEntry) where
  handle_inbound-shard :
      (now : ℕ) (f : Forwarder) (from_peer : Bytes) (packet : ReceivedPacket)
      → IsShard packet
      → handle_inbound a socket rs route now true f from_peer packet
        ≡ inbound_shard a socket rs route now true f from_peer packet.payload
            (lookup from_peer f.fec_receivers)
  unfolding handle_inbound
  handle_inbound-shard now f from_peer packet (inl e) = rw e refl
  handle_inbound-shard now f from_peer packet (inr e) = rw e refl

  abbrev with_receiver : Forwarder → Bytes → FecReceiver → Forwarder
  with_receiver f from_peer r = record f { fec_receivers = insert from_peer r f.fec_receivers }

  -- What `route_all` does with payloads at this node, whatever its other state.
  Routes : Bytes → Bytes → (List Bytes → List Effect) → List Bytes → Type 0
  Routes node_id from_peer effects payloads =
      (g : Forwarder)
      → g.node_id ≡ node_id
      → route_all a socket rs route true g from_peer payloads ≡ ok (g, effects payloads)

  abbrev all_effects : (List Bytes → List Effect) → List (List Bytes) → List Effect
  all_effects effects [] = []
  all_effects effects (ps ∷ outs) = effects ps ++ all_effects effects outs

  all_effects-append :
      (effects : List Bytes → List Effect) (xs ys : List (List Bytes))
      → all_effects effects (xs ++ ys) ≡ all_effects effects xs ++ all_effects effects ys
  all_effects-append effects [] ys = refl
  all_effects-append effects (x ∷ xs) ys =
      ap (λ t. effects x ++ t) (all_effects-append effects xs ys)
      ∙ sym (append_assoc (effects x) (all_effects effects xs) (all_effects effects ys))

  reassembled-found :
      (g : Forwarder) (from_peer : Bytes) (effects : List Bytes → List Effect)
      (out : Option (List Bytes))
      → All (Routes g.node_id from_peer effects) (found out)
      → reassembled a socket rs route true g from_peer out ≡ ok (g, all_effects effects (found out))
  unfolding Routes reassembled
  reassembled-found g from_peer effects none h = refl
  reassembled-found g from_peer effects (some ps) h =
      h.0 g refl ∙ ap (λ x. ok (g, x)) (sym (append-nil (effects ps)))

  -- A round with a shard of a peer.
  handle_inbound-received :
      (g : Forwarder) (now : ℕ) (from_peer : Bytes) (packet : ReceivedPacket)
      (blocks blocks' : FecReceiver) (out : Option (List Bytes))
      (effects : List Bytes → List Effect)
      → IsShard packet
      → lookup from_peer g.fec_receivers ≡ some blocks
      → receive_shard rs now blocks packet.payload ≡ ok (blocks', out)
      → All (Routes g.node_id from_peer effects) (found out)
      → handle_inbound a socket rs route now true g from_peer packet
        ≡ ok (with_receiver g from_peer blocks', all_effects effects (found out))
  unfolding inbound_shard
  handle_inbound-received g now from_peer packet blocks blocks' out effects kind known received
        local =
      handle_inbound-shard now g from_peer packet kind
      ∙ rw (known, inbound_shard, received)
          (reassembled-found (with_receiver g from_peer blocks') from_peer effects out local)

  lookup-expire_all :
      (now : ℕ) (k : Bytes) (blocks : FecReceiver) (m : List (Bytes × FecReceiver))
      → lookup k m ≡ some blocks
      → lookup k (expire_all rs now m) ≡ some (expire_old now 500 blocks)
  unfolding expire_all
  lookup-expire_all now k blocks [] e = absurd (none≢some e)
  lookup-expire_all now k blocks ((j, r) ∷ m) e = elim (Bool-cases (bytes_eq j k)) [
    | inl here ↦
        let same : r ≡ blocks =
          some-injective (sym (ap (λ t. if t then some r else lookup k m) here) ∙ e) in
        rw here (ap (λ (x : FecReceiver). some (expire_old now 500 x)) same)
    | inr later ↦ rw later (
        lookup-expire_all now k blocks m
          (sym (ap (λ t. if t then some r else lookup k m) later) ∙ e))
  ]

  module _ (c : FecConfig) (code : Recovers rs c.data_shards c.parity_shards)
      (pos : 0 < c.data_shards) (from_peer : Bytes) (frames : List (ℕ × Bytes))
      (effects : List Bytes → List Effect) where
    -- The loop hands the shards to the peer's receiver and lets its blocks expire, and what comes out of
    -- the receiver is routed.
    run-deliver_moments :
        (g : Forwarder) (blocks : FecReceiver) (wakes : List (Wake × Bool)) (schedule : Schedule)
        (p : FecReceiver × List (List Bytes))
        → IsForwarder g
        → g.fec_config ≡ c
        → lookup from_peer g.fec_receivers ≡ some blocks
        → Follows from_peer frames wakes schedule
        → deliver_moments rs blocks (map (moment_of frames) schedule) ≡ ok p
        → All (Routes g.node_id from_peer effects) p.1
        → (g' : Forwarder) × (run a socket rs route g wakes ≡ ok (g', all_effects effects p.1))
          × IsForwarder g'
    unfolding run deliver_moments Follows
    run-deliver_moments g blocks [] [] p h same known follows e local = (
      g,
      ap (λ (q : FecReceiver × List (List Bytes)). ok (g, all_effects effects q.1))
          (ok-injective e),
      h,
    )
    run-deliver_moments g blocks ((tick now, up) ∷ wakes) ((t, none) ∷ schedule) p h same known
          (at, follows) e local =
        let flushes = (flush_fec-due rs c code now g same pos h).0 in
        let (g', runs, h') =
          run-deliver_moments (ticked rs c code now g) (expire_old now 500 blocks) wakes schedule p
            (OnOk-ok (flush_fec-IsForwarder rs now g h) flushes) same
            (lookup-expire_all now from_peer blocks g.fec_receivers known) follows
            (ap
                (λ n.
                  deliver_moments rs (expire_old n 500 blocks) (map (moment_of frames) schedule))
                at
              ∙ e)
            local in
        (g', rw flushes runs, h')
    run-deliver_moments g blocks [] (_ ∷ schedule) p h same known follows e local = elim follows [ ]
    run-deliver_moments g blocks ((tick now, up) ∷ wakes) [] p h same known follows e local =
        elim follows [ ]
    run-deliver_moments g blocks ((tick now, up) ∷ wakes) ((t, some i) ∷ schedule) p h same known
          follows e local =
        elim follows [ ]
    run-deliver_moments g blocks ((inbound now from packet, up) ∷ wakes) [] p h same known follows e
          local =
        elim follows [ ]
    run-deliver_moments g blocks ((inbound now from packet, up) ∷ wakes) ((t, none) ∷ schedule) p h
          same known follows e local =
        elim follows [ ]
    run-deliver_moments g blocks ((inbound now from packet, up) ∷ wakes) ((t, some i) ∷ schedule) p
          h same known (at, whose, open_up, kind, carried, follows) e local =
        let (step, received, rest) =
          >>=_ok (receive_shard rs t blocks (arrive frames (t, i)).1)
            (λ r. deliver_moments rs r.0 (map (moment_of frames) schedule) >>= λ q.
              ok (q.0, found r.1 ++ q.1))
            e in
        let (more, delivers, whole) =
          >>=_ok (deliver_moments rs step.0 (map (moment_of frames) schedule))
            (λ q. ok (q.0, found step.1 ++ q.1)) rest in
        let outs = ap (λ (q : FecReceiver × List (List Bytes)). q.1) (ok-injective whole) in
        let (now_local, later_local) =
          All-split (Routes g.node_id from_peer effects) (found step.1) more.1
            (subst (All (Routes g.node_id from_peer effects)) (sym outs) local) in
        let first =
          handle_inbound-received g now from_peer packet blocks step.0 step.1 effects kind known
            (ap (λ n. receive_shard rs n blocks packet.payload) at
              ∙ ap (receive_shard rs t blocks) carried
              ∙ received)
            now_local in
        let g₁ = with_receiver g from_peer step.0 in
        let h₁ : IsForwarder g₁ =
          OnOk-ok (handle_inbound-IsForwarder a socket rs route now true g from_peer packet h)
            first in
        let (g', runs, h') =
          run-deliver_moments g₁ step.0 wakes schedule more h₁ same
            (lookup-insert_self from_peer step.0 g.fec_receivers) follows delivers later_local in
        (
          g',
          rw (whose, open_up, first, runs)
              (ap (λ x. ok (g', x)) (sym (all_effects-append effects (found step.1) more.1))
                ∙ ap (λ x. ok (g', all_effects effects x)) outs),
          h',
        )

-- A node's state keeps the invariant, and its code and that of a peer's sender keep their promise, with
-- `k` data and `p` parity shards of the sender, `p > 0` and `k + p ≤ 256`. The sender holds messages for
-- the node, at least one and up to the size of its block, and flushes them. Of the shards that it makes,
-- any `k` arrive at the node as data or parity packets, in any order, with nothing else in between but
-- runs of the timer, each of them less than half a second after the first shard: the loop delivers
-- exactly those messages to the edge, which takes deliveries all the time, each once and in their
-- order, and the invariant is kept. The node's name is UTF-8 of at most 255 bytes, flow identifiers are
-- `u32`, the block number is a `u16`, each message behind its header has at most 65535 bytes, and the
-- node has a receiver for the peer, with no block of that number before.
pub run-flush :
    (a : Aead) (socket : Socket) (rs : ReedSolomon)
    (route : LatencyMatrix → Bytes → Option RouteEntry) (f : Forwarder) (from_peer : Bytes)
    (s : FecSender) (blocks : FecReceiver) (messages : List Message) (t : ℕ) (schedule : Schedule)
    → IsForwarder f
    → Recovers rs f.fec_config.data_shards f.fec_config.parity_shards
    → 0 < f.fec_config.data_shards
    → IsName f.node_id
    → All (λ m. m.0 < 2 ^ 32) messages
    → s.buffer ≡ map (relayed f.node_id) messages
    → lookup from_peer f.fec_receivers ≡ some blocks
    → Recovers rs s.config.data_shards s.config.parity_shards
    → 0 < length s.buffer
    → length s.buffer ≤ s.config.data_shards
    → All IsPayload s.buffer
    → s.block_id < 2 ^ 16
    → 0 < s.config.parity_shards
    → s.config.data_shards + s.config.parity_shards ≤ 256
    → lookup s.block_id blocks ≡ none
    → All (λ x. x.1 < s.config.data_shards + s.config.parity_shards) (arrivals schedule)
    → Distinct (arrivals schedule)
    → length (arrivals schedule) ≡ s.config.data_shards
    → All (IsTimely t) schedule
    → (s' : FecSender) × (frames : List (ℕ × Bytes)) × (flush rs s ≡ ok (s', frames))
      × ((wakes : List (Wake × Bool))
          → Follows from_peer frames wakes schedule
          → (f' : Forwarder) × (run a socket rs route f wakes
              ≡ ok (f', map (delivery from_peer) messages))
            × IsForwarder f')
unfolding Routes
run-flush a socket rs route f from_peer s blocks messages t schedule h code f_pos name ids buffered
      known r pos fits good id p_pos small fresh inside distinct enough timely =
    let (after, flushes, delivers) =
      flush-deliver_moments rs s blocks t schedule r pos fits good id p_pos small fresh inside
        distinct enough timely in
    let effects : List Bytes → List Effect = λ _. map (delivery from_peer) messages in
    let frames = framing s.config s.block_id 0 (block_of rs s r s.buffer) in
    (
      flushed rs s r,
      frames,
      flushes,
      λ wakes follows.
          let (f', runs, h') =
            run-deliver_moments a socket rs route f.fec_config code f_pos from_peer frames effects f
              blocks wakes schedule (after, s.buffer ∷ []) h refl known follows delivers
              (
                (λ g at.
                    ap (route_all a socket rs route true g from_peer)
                      (buffered ∙ ap (λ n. map (relayed n) messages) (sym at))
                    ∙ route_all-relayed a socket rs route g from_peer messages
                        (subst IsName (sym at) name) ids),
                tt,
              ) in
          (f', runs ∙ ap (λ x. ok (f', x)) (append-nil (map (delivery from_peer) messages)), h'),
    )
