-- ===== src/Relay/Forwarder/Tests.antt =====
-- The theorems on src/relay/forwarder.rs at inputs.
use entrouter_line.Base.{
  inl, inr, ℕ, Bool, ◌-◌, ◌≡◌, ◌≢◌, ◌⊎◌, refl, true, List, [], ◌∷◌, ◌++◌, EachValue, map, Option,
  none, some, ok, lookup, ◌>>=◌, Bytes, length, replicate, insert, string_eq, nat_eq, arith,
}
use mathlib.Core.Path.{subst}
use entrouter_line.Mesh.LatencyMatrix.{LatencyMatrix, update}
use entrouter_line.Mesh.Probe
use entrouter_line.Mesh.Probe.{create_ping}
use entrouter_line.Mesh.Router.{RouteEntry}
use entrouter_line.Relay.Crypto.Toy.{toy, toy-Seals}
use entrouter_line.Relay.Fec.{FecConfig}
use entrouter_line.Relay.FecCodec.{FecSender, new_sender, submit, flush}
use entrouter_line.Relay.FecCodec.SumCode.{sum_code, sum_Recovers}
use entrouter_line.Relay.RelayHeader.{continuation, well_formed, encode_relay_header}
use entrouter_line.Relay.Tunnel.{
  Tunnel, new_tunnel, Peers, Socket, ReceivedPacket, received, received_len, recv_into, receive_one,
}
use entrouter_line.Relay.Wire.{packet_ping, packet_data, packet_parity, max_packet}
use entrouter_line.Relay.Forwarder
use entrouter_line.Relay.Forwarder.{
  Forwarder, Effect, sent, no_route, no_tunnel, add_tunnel, spawn, forward_to, send_to_node,
  route_data, handle_inbound,
}
use entrouter_line.Relay.Forwarder.Routing.{Message, relayed, delivery, IsName, route_data-relayed}
use entrouter_line.Relay.Forwarder.Inbound.{Follows, run-flush}
use entrouter_line.Relay.FecCodec.Expiry.{Schedule}
use entrouter_line.Relay.FecCodec.RoundTrip.{arrive}
use entrouter_line.Relay.Forwarder.Invariant.{IsForwarder, IsTunnel}
use entrouter_line.Relay.Forwarder.Loop.{Wake, inbound, tick, run, expire_all, flush_fec}
use entrouter_line.Relay.Forwarder.Flushing.{emptied_all, due_tasks, flush_fec-due}
use entrouter_line.Relay.Forwarder.Steps.{
  Reach, here, next, peer as joins, submitted, Reach-IsForwarder,
}
use entrouter_line.Relay.Forwarder.Answers.{forward_to-decided}
use entrouter_line.Relay.Forwarder.Ping.{handle_inbound-create_ping}

abbrev syd : Bytes
syd = 115 ∷ []

abbrev lon : Bytes
lon = 108 ∷ []

syd-IsName : IsName syd
unfolding continuation well_formed
syd-IsName = record { utf8 = refl; short = omega arith }

abbrev config : FecConfig
config = record { data_shards = 2; parity_shards = 1 }

abbrev key : Bytes
key = 7 ∷ 9 ∷ []

abbrev tunnel : Tunnel
tunnel = new_tunnel 3 key

abbrev node : Forwarder
node = record (Forwarder.new syd (Probe.new syd []) config) {
  store = tunnel ∷ [];
  tunnels = (lon, 0) ∷ [];
  fec_receivers = (lon, []) ∷ [];
}

abbrev peer : Forwarder
peer = record (Forwarder.new lon (Probe.new lon []) config) {
  store = tunnel ∷ [];
  tunnels = (syd, 0) ∷ [];
}

abbrev socket : Socket
socket address frame = true

abbrev route : LatencyMatrix → Bytes → Option RouteEntry
route m dest = none

route_data-relayed_example :
    let payload = encode_relay_header 42 syd (5 ∷ 6 ∷ []) in
    (syd ≡ syd
      → route_data toy socket sum_code route true node lon payload
        ≡ ok (node, delivery lon (42, 5 ∷ 6 ∷ []) ∷ []))
    × (syd ≢ syd
        → route_data toy socket sum_code route true node lon payload
          ≡ (forward_to toy socket sum_code route node syd payload >>= λ r. ok (r.0, r.1)))
route_data-relayed_example =
    route_data-relayed toy socket sum_code route true node lon syd 42 (5 ∷ 6 ∷ []) syd-IsName
      (omega arith)

abbrev messages : List Message
messages = (42, 5 ∷ 6 ∷ []) ∷ (1000000, []) ∷ []

abbrev sender : FecSender
sender = record {
  config = config;
  block_id = 65535;
  buffer = (42 ∷ 0 ∷ 0 ∷ 0 ∷ 1 ∷ 115 ∷ 5 ∷ 6 ∷ []) ∷ (64 ∷ 66 ∷ 15 ∷ 0 ∷ 1 ∷ 115 ∷ []) ∷ [];
  payload_lens = 8 ∷ 6 ∷ [];
}

sender-messages : sender.buffer ≡ map (relayed syd) messages
unfolding encode_relay_header
sender-messages = refl

abbrev listening : Forwarder
listening = record node {
  fec_senders =
      (lon, record { config = config; block_id = 0; buffer = []; payload_lens = [] }) ∷ [];
}

listening-IsForwarder : IsForwarder listening
unfolding IsTunnel
listening-IsForwarder = record {
  stored = omega arith;
  linked = λ peer_id i e. ground arith;
  senders = (
    record { configured = refl; partial = omega arith; measured = refl; numbered = omega arith },
    tt,
  );
  receivers = ground arith;
  spawned = tt;
  probing = omega arith;
}

-- The timer runs between the two shards and after them.
abbrev schedule : Schedule
schedule = (0, some 2) ∷ (400_000_000, none) ∷ (405_000_000, some 1) ∷ (410_000_000, none) ∷ []

made :
    (frames : List (ℕ × Bytes)) × ((wakes : List (Wake × Bool))
      → Follows lon frames wakes schedule
      → (node' : Forwarder) × (run toy socket sum_code route listening wakes
          ≡ ok (node', map (delivery lon) messages))
        × IsForwarder node')
made =
    let (s', frames, flushes, delivers) =
      run-flush toy socket sum_code route listening lon sender [] messages 0 schedule
        listening-IsForwarder sum_Recovers (omega arith) syd-IsName (omega arith) sender-messages
        refl sum_Recovers (omega arith) (omega arith) (omega arith) (omega arith) (omega arith)
        (omega arith) refl (omega arith) (omega arith) refl (omega arith) in
    (frames, delivers)

abbrev packet : ℕ → ℕ → ReceivedPacket
packet packet_type i = record {
  packet_type = packet_type;
  seq = i;
  payload = (arrive made.0 (0, i)).1;
  from = 6;
}

abbrev wakes : List (Wake × Bool)
wakes =
    (inbound 0 lon (packet packet_parity 2), true)
    ∷ (tick 400_000_000, true)
    ∷ (inbound 405_000_000 lon (packet packet_data 1), true)
    ∷ (tick 410_000_000, true)
    ∷ []

wakes-Follows : Follows lon made.0 wakes schedule
unfolding Follows
wakes-Follows =
    (refl, refl, refl, inr refl, refl, (refl, (refl, refl, refl, inl refl, refl, (refl, tt))))

both_delivered :
    (node' : Forwarder) × (run toy socket sum_code route listening wakes
      ≡ ok (node', map (delivery lon) messages))
    × IsForwarder node'
both_delivered = made.1 wakes wakes-Follows

run-flush_example :
    (s' : FecSender) × (frames : List (ℕ × Bytes)) × (flush sum_code sender ≡ ok (s', frames))
    × ((wakes : List (Wake × Bool))
        → Follows lon frames wakes schedule
        → (node' : Forwarder) × (run toy socket sum_code route listening wakes
            ≡ ok (node', map (delivery lon) messages))
          × IsForwarder node')
run-flush_example =
    run-flush toy socket sum_code route listening lon sender [] messages 0 schedule
      listening-IsForwarder sum_Recovers (omega arith) syd-IsName (omega arith) sender-messages refl
      sum_Recovers (omega arith) (omega arith) (omega arith) (omega arith) (omega arith)
      (omega arith) refl (omega arith) (omega arith) refl (omega arith)

abbrev peers : Peers
peers = (5, (lon, key)) ∷ []

empty_buffer : Bytes
empty_buffer = replicate max_packet 0

length-empty_buffer : length empty_buffer ≡ max_packet
unfolding empty_buffer
length-empty_buffer = refl

handle_inbound-create_ping_example :
    let (prober, ping) = create_ping 10 20 node.prober lon in
    let packet : ReceivedPacket = record {
      packet_type = packet_ping;
      seq = 4;
      payload = ping;
      from = 6;
    } in
    (peer' : Forwarder) × (frame : Bytes) × (pong : ReceivedPacket) × (node' : Forwarder)
    × (handle_inbound toy socket sum_code route 30 true peer syd packet
        ≡ ok (peer', sent 3 frame ∷ []))
    × (receive_one toy peers 5 (received_len empty_buffer frame) (recv_into empty_buffer frame)
        ≡ ok (received lon pong))
    × (handle_inbound toy socket sum_code route 50 true (record node { prober = prober }) lon pong
        ≡ ok (node', []))
    × (node'.prober.matrix ≡ update 50 (update 50 [] syd lon (50 - 10)) lon syd (50 - 10))
handle_inbound-create_ping_example =
    handle_inbound-create_ping toy socket sum_code route node peer syd lon 10 20 30 50 0 4 6 5
      tunnel peers empty_buffer toy-Seals (omega arith) (omega arith) refl refl (omega arith) refl
      length-empty_buffer

abbrev fresh : Forwarder
fresh = Forwarder.new syd (Probe.new syd []) config

abbrev joined : Forwarder
joined = record fresh {
  store = new_tunnel 3 key ∷ [];
  tunnels = (lon, 0) ∷ [];
  fec_senders =
      (lon, record { config = config; block_id = 0; buffer = []; payload_lens = [] }) ∷ [];
  fec_receivers = (lon, []) ∷ [];
}

abbrev to_lon : LatencyMatrix → Bytes → Option RouteEntry
to_lon m dest = some (record { next_hop_node = lon; total_rtt = 5000; path = syd ∷ lon ∷ [] })

abbrev waiting : Forwarder
waiting = record joined {
  fec_senders =
      (
        lon,
        record {
          config = config;
          block_id = 0;
          buffer = (42 ∷ 0 ∷ 0 ∷ 0 ∷ 1 ∷ 108 ∷ 5 ∷ 6 ∷ []) ∷ [];
          payload_lens = 8 ∷ [];
        },
      )
      ∷ [];
}

joined-waiting :
    send_to_node toy socket sum_code to_lon joined lon 42 (5 ∷ 6 ∷ []) ≡ ok (waiting, [], none)
unfolding send_to_node forward_to encode_relay_header submit
joined-waiting = refl

fresh-joined : add_tunnel fresh lon (new_tunnel 3 key) ≡ joined
unfolding add_tunnel new_sender
fresh-joined = refl

-- A peer joins, and a payload waits in its sender.
Reach-waiting : Reach toy socket sum_code to_lon fresh waiting
Reach-waiting =
    next
      (subst (Reach toy socket sum_code to_lon fresh) fresh-joined
        (next here (joins fresh lon 3 key)))
      (submitted joined waiting lon 42 (5 ∷ 6 ∷ []) [] none joined-waiting)

waiting-IsForwarder : IsForwarder waiting
waiting-IsForwarder =
    Reach-IsForwarder toy socket sum_code to_lon syd (Probe.new syd []) config waiting (omega arith)
      Reach-waiting

Reach-IsForwarder_example : IsForwarder waiting
Reach-IsForwarder_example =
    Reach-IsForwarder toy socket sum_code to_lon syd (Probe.new syd []) config waiting (omega arith)
      Reach-waiting

forward_to-decided_example :
    ((to_lon [] lon ≡ none)
      × (forward_to toy socket sum_code to_lon waiting lon (7 ∷ [])
          ≡ ok (waiting, [], some (no_route lon))))
    ⊎ (((r : RouteEntry) × (to_lon [] lon ≡ some r)
          × (lookup r.next_hop_node waiting.tunnels ≡ none)
          × (forward_to toy socket sum_code to_lon waiting lon (7 ∷ [])
              ≡ ok (waiting, [], some (no_tunnel r.next_hop_node))))
        ⊎ ((r : RouteEntry) × (i : ℕ) × (s : FecSender) × (t : FecSender) × (shards : Option
              (List (ℕ × Bytes)))
            × (to_lon [] lon ≡ some r)
            × (lookup r.next_hop_node waiting.tunnels ≡ some i)
            × (lookup r.next_hop_node waiting.fec_senders ≡ some s)
            × (submit sum_code s (7 ∷ []) ≡ ok (t, shards))
            × (forward_to toy socket sum_code to_lon waiting lon (7 ∷ [])
                ≡ ok (
                  record waiting {
                    fec_senders = insert r.next_hop_node t waiting.fec_senders;
                    tasks = spawn i shards waiting.tasks;
                  },
                  [],
                  none,
                ))))
forward_to-decided_example =
    forward_to-decided toy socket sum_code to_lon waiting lon (7 ∷ []) waiting-IsForwarder
      sum_Recovers (omega arith)

-- The payload that waits goes out as a block, in a task.
flush_fec-due_example :
    let waiting' = record waiting {
      fec_senders = emptied_all waiting.fec_senders;
      tasks =
          waiting.tasks
          ++ due_tasks sum_code config sum_Recovers waiting.tunnels waiting.fec_senders;
      fec_receivers = expire_all sum_code 9 waiting.fec_receivers;
    } in
    (flush_fec sum_code 9 waiting ≡ ok waiting')
    × EachValue (λ s. s.buffer ≡ []) waiting'.fec_senders
    × (flush_fec sum_code 9 waiting' ≡ ok waiting')
flush_fec-due_example =
    flush_fec-due sum_code config sum_Recovers 9 waiting refl (omega arith) waiting-IsForwarder
