-- ===== src/Relay/Forwarder/Invariant.antt =====
-- src/relay/forwarder.rs: the invariant of the forwarder's state, kept by what it sends.
use entrouter_line.Base.{
  ℕ, ◌^◌, ◌<◌, ◌≡◌, refl, sym, true, List, [], ◌∷◌, Option, none, some, OnOk, on_ok, OnOk-any,
  OnOk-bind, Bytes, string_eq, length, length-set, get_elem?, set, lookup, insert, lookup-insert,
  All, All-append, All-set, All-get_elem?, EachValue, EachValue-lookup, EachValue-insert, is_some,
  arith,
}
use mathlib.Core.Path.{subst}
use entrouter_line.Mesh.LatencyMatrix.{LatencyMatrix}
use entrouter_line.Mesh.Router.{RouteEntry}
use entrouter_line.Relay.Crypto.{Aead}
use entrouter_line.Relay.Fec.{ReedSolomon}
use entrouter_line.Relay.FecCodec.{FecSender, FecReceiver}
use entrouter_line.Relay.FecCodec.Shapes.{IsSender, IsReceiver, submit-IsSender}
use entrouter_line.Relay.Tunnel.{Tunnel, Socket, send, build_frame}
use entrouter_line.Relay.Wire.{packet_data}
use entrouter_line.Relay.Forwarder.{
  Forwarder, Task, spawn, send_stored, send_on, next_shard, run_task, over_tunnel, via_hop, along,
  forward_to,
}

-- The counter of the nonces is a `u64`.
unfoldable pub IsTunnel : Tunnel → Type 0
IsTunnel t = t.tx_seq < 2 ^ 64

-- A task sends over a tunnel of the store.
unfoldable pub IsTask : ℕ → Task → Type 0
IsTask n task = task.0 < n

-- A peer with a tunnel of the store has a sender and a receiver.
abbrev pub IsLinked :
    List (Bytes × ℕ) → ℕ → List (Bytes × FecSender) → List (Bytes × FecReceiver) → Type 0
IsLinked tunnels n senders receivers =
    (peer_id : Bytes) (i : ℕ)
    → lookup peer_id tunnels ≡ some i
    → (i < n)
      × (is_some (lookup peer_id senders) ≡ true)
      × (is_some (lookup peer_id receivers) ≡ true)

pub record IsForwarder (f : Forwarder) : Type 0 where
  pub stored : All IsTunnel f.store
  pub linked : IsLinked f.tunnels (length f.store) f.fec_senders f.fec_receivers
  pub senders : EachValue (IsSender f.fec_config) f.fec_senders
  pub receivers : EachValue IsReceiver f.fec_receivers
  pub spawned : All (IsTask (length f.store)) f.tasks
  pub probing : f.prober.next_probe_id < 2 ^ 32

pub insert-HasKey :
    {V : Type 0} (k j : Bytes) (v : V) (m : List (Bytes × V))
    → is_some (lookup j m) ≡ true
    → is_some (lookup j (insert k v m)) ≡ true
insert-HasKey k j v m h = ground (arith, lookup-insert k j v m)

module _ (a : Aead) (socket : Socket) where
  -- `send` moves the counter of the tunnel only.
  pub send-IsTunnel :
      (t : Tunnel) (ptype : ℕ) (payload : Bytes)
      → OnOk (λ q. IsTunnel q.0) (send a socket t ptype payload)
  unfolding send IsTunnel
  send-IsTunnel t ptype payload =
      OnOk-bind (OnOk-any (build_frame a t.key t.tx_seq ptype payload))
        λ frame _. on_ok (omega arith)

  pub stored-IsForwarder :
      (f : Forwarder) (i : ℕ) (t : Tunnel)
      → IsTunnel t
      → IsForwarder f
      → IsForwarder (record f { store = set f.store i t })
  stored-IsForwarder f i t ranged h =
      let size = length-set f.store i t in
      record {
        stored = All-set IsTunnel f.store i t ranged h.stored;
        linked =
            subst (λ n. IsLinked f.tunnels n f.fec_senders f.fec_receivers) (sym size) h.linked;
        senders = h.senders;
        receivers = h.receivers;
        spawned = subst (λ n. All (IsTask n) f.tasks) (sym size) h.spawned;
        probing = h.probing;
      }

  send_stored-IsForwarder :
      (i ptype : ℕ) (payload : Bytes) (f : Forwarder) (o : Option Tunnel)
      → IsForwarder f
      → OnOk (λ q. IsForwarder q.0) (send_stored a socket i ptype payload f o)
  unfolding send_stored
  send_stored-IsForwarder i ptype payload f none h = on_ok h
  send_stored-IsForwarder i ptype payload f (some t) h =
      OnOk-bind (send-IsTunnel t ptype payload)
        λ q ranged. on_ok (stored-IsForwarder f i q.0 ranged h)

  pub send_on-IsForwarder :
      (i ptype : ℕ) (payload : Bytes) (f : Forwarder)
      → IsForwarder f
      → OnOk (λ q. IsForwarder q.0) (send_on a socket i ptype payload f)
  unfolding send_on
  send_on-IsForwarder i ptype payload f h =
      send_stored-IsForwarder i ptype payload f (get_elem? f.store i) h

  next_shard-IsForwarder :
      (n : ℕ) (f : Forwarder) (o : Option Task)
      → ((t : Task) → o ≡ some t → IsTask (length f.store) t)
      → IsForwarder f
      → OnOk (λ q. IsForwarder q.0) (next_shard a socket n f o)
  unfolding next_shard IsTask
  next_shard-IsForwarder n f none task h = on_ok h
  next_shard-IsForwarder n f (some (i, [])) task h = on_ok h
  next_shard-IsForwarder n f (some (i, (ptype, shard) ∷ shards)) task h =
      let f' : Forwarder = record f { tasks = set f.tasks n (i, shards) } in
      let h' : IsForwarder f' = record {
        stored = h.stored;
        linked = h.linked;
        senders = h.senders;
        receivers = h.receivers;
        spawned = All-set (IsTask (length f.store)) f.tasks n (i, shards) (task _ refl) h.spawned;
        probing = h.probing;
      } in
      OnOk-bind (send_on-IsForwarder i ptype shard f' h') λ q kept. on_ok kept

  pub run_task-IsForwarder :
      (n : ℕ) (f : Forwarder) → IsForwarder f → OnOk (λ q. IsForwarder q.0) (run_task a socket n f)
  unfolding run_task
  run_task-IsForwarder n f h =
      next_shard-IsForwarder n f (get_elem? f.tasks n)
        (λ t e. All-get_elem? (IsTask (length f.store)) f.tasks n t e h.spawned) h

pub spawn-IsTask :
    (n i : ℕ) (shards : Option (List (ℕ × Bytes))) (tasks : List Task)
    → i < n
    → All (IsTask n) tasks
    → All (IsTask n) (spawn i shards tasks)
unfolding IsTask
spawn-IsTask n i none tasks less h = h
spawn-IsTask n i (some shards) tasks less h =
    All-append (IsTask n) tasks ((i, shards) ∷ []) h (less, tt)

module _ (a : Aead) (socket : Socket) (rs : ReedSolomon)
    (route : LatencyMatrix → Bytes → Option RouteEntry) where
  over_tunnel-IsForwarder :
      (f : Forwarder) (hop : Bytes) (i : ℕ) (payload : Bytes) (o : Option FecSender)
      → ((s : FecSender) → o ≡ some s → IsSender f.fec_config s)
      → i < length f.store
      → IsForwarder f
      → OnOk (λ q. IsForwarder q.0) (over_tunnel a socket rs route f hop i payload o)
  unfolding over_tunnel
  over_tunnel-IsForwarder f hop i payload none sender less h =
      OnOk-bind (send_on-IsForwarder a socket i packet_data payload f h) λ q kept. on_ok kept
  over_tunnel-IsForwarder f hop i payload (some s) sender less h =
      OnOk-bind (submit-IsSender rs f.fec_config s payload (sender s refl)) λ q kept.
        on_ok (record {
          stored = h.stored;
          linked = λ peer_id j e.
              let (bound, sends, receives) = h.linked peer_id j e in
              (bound, insert-HasKey hop peer_id q.0 f.fec_senders sends, receives);
          senders = EachValue-insert (IsSender f.fec_config) hop q.0 f.fec_senders kept h.senders;
          receivers = h.receivers;
          spawned = spawn-IsTask (length f.store) i q.1 f.tasks less h.spawned;
          probing = h.probing;
        })

  via_hop-IsForwarder :
      (f : Forwarder) (hop payload : Bytes) (o : Option ℕ)
      → ((i : ℕ) → o ≡ some i → i < length f.store)
      → IsForwarder f
      → OnOk (λ q. IsForwarder q.0) (via_hop a socket rs route f hop payload o)
  unfolding via_hop
  via_hop-IsForwarder f hop payload none bound h = on_ok h
  via_hop-IsForwarder f hop payload (some i) bound h =
      over_tunnel-IsForwarder f hop i payload (lookup hop f.fec_senders)
        (λ s e. EachValue-lookup (IsSender f.fec_config) hop s f.fec_senders e h.senders)
        (bound i refl) h

  along-IsForwarder :
      (f : Forwarder) (dest payload : Bytes) (o : Option RouteEntry)
      → IsForwarder f
      → OnOk (λ q. IsForwarder q.0) (along a socket rs route f dest payload o)
  unfolding along
  along-IsForwarder f dest payload none h = on_ok h
  along-IsForwarder f dest payload (some r) h =
      via_hop-IsForwarder f r.next_hop_node payload (lookup r.next_hop_node f.tunnels)
        (λ i e. (h.linked r.next_hop_node i e).0) h

  pub forward_to-IsForwarder :
      (f : Forwarder) (dest payload : Bytes)
      → IsForwarder f
      → OnOk (λ q. IsForwarder q.0) (forward_to a socket rs route f dest payload)
  unfolding forward_to
  forward_to-IsForwarder f dest payload h =
      along-IsForwarder f dest payload (route f.prober.matrix dest) h
