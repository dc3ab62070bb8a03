-- ===== src/Relay/Forwarder/Steps.antt =====
-- src/relay/forwarder.rs and the probe loop of src/mesh/probe.rs: the steps of a forwarder, in any
-- order, and its invariant in every state that they reach.
use entrouter_line.Base.{
  ℕ, ◌+◌, ◌^◌, ◌<◌, ◌≡◌, ◌≢◌, refl, sym, ap, ◌∙◌, inl, inr, Bool, true, List, [], ◌∷◌, ◌++◌, Option,
  none, some, ok, OnOk, on_ok, OnOk-bind, OnOk-ok, Bytes, bytes_eq, bytes_eq_iff, string_eq, length,
  length-append, get_elem?, set, if◌then◌else◌, Bool-cases, lookup, insert, lookup-insert_ne,
  lookup-insert_self, some-injective, none≢some, All, All-append, All-map, EachValue,
  EachValue-insert, is_some, arith,
}
use mathlib.Core.Bool.{false≢true}
use mathlib.Core.Path.{subst}
use entrouter_line.Mesh.LatencyMatrix.{LatencyMatrix}
use entrouter_line.Mesh.Probe.{Prober, create_ping, probe_tick}
use entrouter_line.Mesh.Router.{RouteEntry}
use entrouter_line.Relay.Crypto.{Aead}
use entrouter_line.Relay.Fec.{FecConfig, ReedSolomon}
use entrouter_line.Relay.FecCodec.{FecSender, FecReceiver, new_sender}
use entrouter_line.Relay.FecCodec.Shapes.{
  IsSender, IsReceiver, new_sender-IsSender, flush_partial-IsSender, expire_old-IsReceiver,
}
use entrouter_line.Relay.RelayHeader.{encode_relay_header}
use entrouter_line.Relay.Tunnel.{Tunnel, Socket, ReceivedPacket, new_tunnel}
use entrouter_line.Relay.Wire.{packet_ping}
use entrouter_line.Relay.Forwarder
use entrouter_line.Relay.Forwarder.{
  Forwarder, Task, Effect, ForwarderError, LocalDelivery, or_insert, add_tunnel, spawn, send_on,
  run_task, forward_to, send_to_node, routed, route_data, route_all, reassembled, inbound_shard,
  inbound_ping, handle_inbound,
}
use entrouter_line.Relay.Forwarder.Handling.{probed-IsForwarder, handle_inbound-IsForwarder}
use entrouter_line.Relay.Forwarder.Loop.{flushed, flush_senders, expire_all, flush_fec}
use entrouter_line.Relay.Forwarder.Invariant.{
  IsForwarder, IsTunnel, IsTask, send-IsTunnel, stored-IsForwarder, run_task-IsForwarder,
  forward_to-IsForwarder, spawn-IsTask, insert-HasKey,
}

module _ (rs : ReedSolomon) (c : FecConfig) where
  flushed-IsTask :
      (n : ℕ) (o : Option ℕ) (shards : Option (List (ℕ × Bytes))) (tasks : List Task)
      → ((i : ℕ) → o ≡ some i → i < n)
      → All (IsTask n) tasks
      → All (IsTask n) (flushed rs o shards tasks)
  unfolding flushed
  flushed-IsTask n none shards tasks bound h = h
  flushed-IsTask n (some i) shards tasks bound h = spawn-IsTask n i shards tasks (bound i refl) h

  -- The senders keep their names, and the tasks are over tunnels of the store.
  IsFlushed : ℕ → List (Bytes × FecSender) → List (Bytes × FecSender) × List Task → Type 0
  IsFlushed n senders q =
      EachValue (IsSender c) q.0
      × All (IsTask n) q.1
      × ((k : Bytes) → is_some (lookup k senders) ≡ true → is_some (lookup k q.0) ≡ true)

  flush_senders-IsFlushed :
      (n : ℕ) (tunnels : List (Bytes × ℕ)) (senders : List (Bytes × FecSender)) (tasks : List Task)
      → ((k : Bytes) (i : ℕ) → lookup k tunnels ≡ some i → i < n)
      → EachValue (IsSender c) senders
      → All (IsTask n) tasks
      → OnOk (IsFlushed n senders) (flush_senders rs tunnels senders tasks)
  unfolding flush_senders IsFlushed
  flush_senders-IsFlushed n tunnels [] tasks bound hs ts = on_ok (tt, ts, λ k has. has)
  flush_senders-IsFlushed n tunnels ((peer_id, s) ∷ senders) tasks bound (h, hs) ts =
      OnOk-bind (flush_partial-IsSender rs c s h) λ q kept.
        OnOk-bind
          (flush_senders-IsFlushed n tunnels senders (flushed rs (lookup peer_id tunnels) q.1 tasks)
            bound hs (flushed-IsTask n (lookup peer_id tunnels) q.1 tasks (bound peer_id) ts))
          λ r rest. on_ok (
            (kept, rest.0),
            rest.1,
            λ k has. elim (Bool-cases (bytes_eq peer_id k)) [
              | inl same ↦ rw same refl
              | inr other ↦
                  let old : is_some (lookup k senders) ≡ true =
                    sym (ap (λ t. is_some (if t then some s else lookup k senders)) other) ∙ has in
                  rw other (rest.2 k old)
            ],
          )

  expire_all-IsReceiver :
      (now : ℕ) (receivers : List (Bytes × FecReceiver))
      → EachValue IsReceiver receivers
      → EachValue IsReceiver (expire_all rs now receivers)
        × ((k : Bytes)
            → is_some (lookup k receivers) ≡ true
            → is_some (lookup k (expire_all rs now receivers)) ≡ true)
  unfolding expire_all
  expire_all-IsReceiver now [] hs = (tt, λ k has. has)
  expire_all-IsReceiver now ((peer_id, r) ∷ receivers) (h, hs) =
      let (rest, keeps) = expire_all-IsReceiver now receivers hs in
      (
        (expire_old-IsReceiver now 500 r h, rest),
        λ k has. elim (Bool-cases (bytes_eq peer_id k)) [
          | inl same ↦ rw same refl
          | inr other ↦
              let old : is_some (lookup k receivers) ≡ true =
                sym (ap (λ t. is_some (if t then some r else lookup k receivers)) other) ∙ has in
              rw other (keeps k old)
        ],
      )

pub flush_fec-IsForwarder :
    (rs : ReedSolomon) (now : ℕ) (f : Forwarder)
    → IsForwarder f
    → OnOk IsForwarder (flush_fec rs now f)
unfolding flush_fec IsFlushed
flush_fec-IsForwarder rs now f h =
    let (receivers, receive) =
      expire_all-IsReceiver rs f.fec_config now f.fec_receivers h.receivers in
    OnOk-bind
      (flush_senders-IsFlushed rs f.fec_config (length f.store) f.tunnels f.fec_senders f.tasks
        (λ k i e. (h.linked k i e).0) h.senders h.spawned)
      λ q flushed. on_ok (record {
        stored = h.stored;
        linked = λ peer_id i e.
            let (bound, sends, receives) = h.linked peer_id i e in
            (bound, flushed.2 peer_id sends, receive peer_id receives);
        senders = flushed.0;
        receivers = receivers;
        spawned = flushed.1;
        probing = h.probing;
      })

-- `entry(k).or_insert_with(..)`: the key is there then, and other entries stay.
or_insert-HasKey :
    {V : Type 0} (k j : Bytes) (v : V) (m : List (Bytes × V)) (o : Option V)
    → o ≡ lookup k m
    → (is_some (lookup k (or_insert k v m o)) ≡ true)
      × (is_some (lookup j m) ≡ true → is_some (lookup j (or_insert k v m o)) ≡ true)
or_insert-HasKey k j v m none e =
    (ap is_some (lookup-insert_self k v m), λ has. insert-HasKey k j v m has)
or_insert-HasKey k j v m (some w) e = (sym (ap is_some e), λ has. has)

or_insert-EachValue :
    {V : Type 0} (P : V → Type 0) (k : Bytes) (v : V) (m : List (Bytes × V)) (o : Option V)
    → P v
    → EachValue P m
    → EachValue P (or_insert k v m o)
or_insert-EachValue P k v m none p h = EachValue-insert P k v m p h
or_insert-EachValue P k v m (some w) p h = h

add_tunnel-IsForwarder :
    (f : Forwarder) (peer_id : Bytes) (t : Tunnel)
    → IsTunnel t
    → IsForwarder f
    → IsForwarder (add_tunnel f peer_id t)
unfolding add_tunnel IsTask
add_tunnel-IsForwarder f peer_id t ranged h =
    let n = length f.store in
    let size : length (f.store ++ t ∷ []) ≡ n + 1 = length-append f.store (t ∷ []) in
    let s = new_sender f.fec_config in
    let sends = λ (j : Bytes).
      or_insert-HasKey peer_id j s f.fec_senders (lookup peer_id f.fec_senders) refl in
    let fresh : FecReceiver = [] in
    let receives = λ (j : Bytes).
      or_insert-HasKey peer_id j fresh f.fec_receivers (lookup peer_id f.fec_receivers) refl in
    record {
      stored = All-append IsTunnel f.store (t ∷ []) h.stored (ranged, tt);
      linked = λ j i e. elim (Bool-cases (bytes_eq peer_id j)) [
        | inl same ↦
            let at : peer_id ≡ j = (bytes_eq_iff peer_id j).0 same in
            let new' : some n ≡ some i =
              sym (lookup-insert_self peer_id n f.tunnels)
              ∙ subst (λ k. lookup k (insert peer_id n f.tunnels) ≡ some i) (sym at) e in
            (
              omega (arith, some-injective new', size),
              subst
                  (λ k.
                    is_some
                      (lookup k (or_insert peer_id s f.fec_senders (lookup peer_id f.fec_senders)))
                    ≡ true)
                  at (sends peer_id).0,
              subst
                  (λ k.
                    is_some (
                      lookup k
                        (or_insert peer_id [] f.fec_receivers (lookup peer_id f.fec_receivers)))
                    ≡ true)
                  at (receives peer_id).0,
            )
        | inr other ↦
            let apart : peer_id ≢ j = λ q. false≢true (sym other ∙ (bytes_eq_iff peer_id j).1 q) in
            let (bound, sent, received) =
              h.linked j i (sym (lookup-insert_ne peer_id j n f.tunnels apart) ∙ e) in
            (omega (arith, bound, size), (sends j).1 sent, (receives j).1 received)
      ];
      senders =
          or_insert-EachValue (IsSender f.fec_config) peer_id s f.fec_senders
            (lookup peer_id f.fec_senders) (new_sender-IsSender f.fec_config) h.senders;
      receivers =
          or_insert-EachValue IsReceiver peer_id [] f.fec_receivers (lookup peer_id f.fec_receivers)
            tt h.receivers;
      spawned =
          All-map (IsTask n) (IsTask (length (f.store ++ t ∷ [])))
            (λ task less. omega (arith, less, size)) f.tasks h.spawned;
      probing = h.probing;
    }

module _ (a : Aead) (socket : Socket) (rs : ReedSolomon)
    (route : LatencyMatrix → Bytes → Option RouteEntry) where
  probe_tick-IsForwarder :
      (sent now : ℕ) (f : Forwarder) (peer_id : Bytes) (i : ℕ) (t : Tunnel)
      → IsForwarder f
      → OnOk
          (λ q. IsForwarder (record f { prober = q.0; store = set f.store i q.1 }))
          (probe_tick a socket sent now f.prober peer_id t)
  unfolding probe_tick create_ping
  probe_tick-IsForwarder sent now f peer_id i t h =
      OnOk-bind (send-IsTunnel a socket t packet_ping (create_ping sent now f.prober peer_id).1)
        λ q ranged. on_ok (
          stored-IsForwarder a socket
            (record f { prober = (create_ping sent now f.prober peer_id).0 }) i q.0 ranged
            (probed-IsForwarder f (create_ping sent now f.prober peer_id).0 (omega arith) h))

  -- What can happen to a forwarder: a new peer, a packet, the timer, a spawned task, a probe, data of
  -- the local edge. A step that panics leads nowhere.
  pub data Step : Forwarder → Forwarder → Type 0 where
    peer :
        (f : Forwarder) (peer_id : Bytes) (addr : ℕ) (key : Bytes)
        → Step f (add_tunnel f peer_id (new_tunnel addr key))
    inbound :
        (f f' : Forwarder) (now : ℕ) (up : Bool) (from : Bytes) (packet : ReceivedPacket)
        (effects : List Effect)
        → handle_inbound a socket rs route now up f from packet ≡ ok (f', effects)
        → Step f f'
    tick : (f f' : Forwarder) (now : ℕ) → flush_fec rs now f ≡ ok f' → Step f f'
    task :
        (f f' : Forwarder) (n : ℕ) (effects : List Effect)
        → run_task a socket n f ≡ ok (f', effects)
        → Step f f'
    probe :
        (f : Forwarder) (peer_id : Bytes) (i sent now : ℕ) (t t' : Tunnel) (p : Prober)
        (frame : Bytes)
        → get_elem? f.store i ≡ some t
        → probe_tick a socket sent now f.prober peer_id t ≡ ok (p, t', frame)
        → Step f (record f { prober = p; store = set f.store i t' })
    submitted :
        (f f' : Forwarder) (dest : Bytes) (flow_id : ℕ) (app_data : Bytes) (effects : List Effect)
        (error : Option ForwarderError)
        → send_to_node a socket rs route f dest flow_id app_data ≡ ok (f', effects, error)
        → Step f f'

  pub data Reach (f : Forwarder) : Forwarder → Type 0 where
    here : Reach f f
    next : {g h : Forwarder} → Reach f g → Step g h → Reach f h

  Step-IsForwarder : {f g : Forwarder} → Step f g → IsForwarder f → IsForwarder g
  unfolding send_to_node IsTunnel
  Step-IsForwarder (peer f peer_id addr key) h =
      add_tunnel-IsForwarder f peer_id (new_tunnel addr key) (omega arith) h
  Step-IsForwarder (inbound f f' now up from packet effects e) h =
      OnOk-ok (handle_inbound-IsForwarder a socket rs route now up f from packet h) e
  Step-IsForwarder (tick f f' now e) h = OnOk-ok (flush_fec-IsForwarder rs now f h) e
  Step-IsForwarder (task f f' n effects e) h = OnOk-ok (run_task-IsForwarder a socket n f h) e
  Step-IsForwarder (probe f peer_id i sent now t t' p frame there e) h =
      OnOk-ok (probe_tick-IsForwarder sent now f peer_id i t h) e
  Step-IsForwarder (submitted f f' dest flow_id app_data effects error e) h =
      OnOk-ok
        (forward_to-IsForwarder a socket rs route f dest (encode_relay_header flow_id dest app_data)
          h)
        e

  -- In every state that a new forwarder reaches, by any steps in any order: each tunnel and each task
  -- has its place in the store; each peer with a tunnel has a sender and a receiver; a sender holds
  -- less than a block, and as many lengths as payloads; a block that waits for shards has one cell for
  -- each, counts those it holds, and lacks some; sequence numbers, block numbers and probe numbers fit
  -- into 64, 16 and 32 bits.
  pub Reach-IsForwarder :
      (node_id : Bytes) (p : Prober) (c : FecConfig) (f : Forwarder)
      → p.next_probe_id < 2 ^ 32
      → Reach (Forwarder.new node_id p c) f
      → IsForwarder f
  Reach-IsForwarder node_id p c f ranged here = record {
    stored = tt;
    linked = λ k i e. absurd (none≢some e);
    senders = tt;
    receivers = tt;
    spawned = tt;
    probing = ranged;
  }
  Reach-IsForwarder node_id p c f ranged (next r s) =
      Step-IsForwarder s (Reach-IsForwarder node_id p c _ ranged r)
