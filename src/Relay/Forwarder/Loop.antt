-- ===== src/Relay/Forwarder/Loop.antt =====
-- src/relay/forwarder.rs: the timer's flush, and the loop of `run`.
use entrouter_line.Base.{
  ℕ, List, [], ◌∷◌, ◌++◌, Option, none, some, Run, ok, ◌>>=◌, Bool, Bytes, lookup, string_eq,
}
use entrouter_line.Mesh.LatencyMatrix.{LatencyMatrix}
use entrouter_line.Mesh.Router.{RouteEntry}
use entrouter_line.Relay.Crypto.{Aead}
use entrouter_line.Relay.Fec.{ReedSolomon}
use entrouter_line.Relay.FecCodec.{FecSender, FecReceiver, flush_partial, expire_old}
use entrouter_line.Relay.Tunnel.{Socket, ReceivedPacket}
use entrouter_line.Relay.Forwarder.{Forwarder, Effect, Task, spawn, handle_inbound}

module _ (rs : ReedSolomon) where
  -- Shards without a tunnel are lost.
  unfoldable pub flushed : Option ℕ → Option (List (ℕ × Bytes)) → List Task → List Task
  flushed none shards tasks = tasks
  flushed (some i) shards tasks = spawn i shards tasks

  unfoldable pub flush_senders :
      List (Bytes × ℕ)
      → List (Bytes × FecSender)
      → List Task
      → Run (List (Bytes × FecSender) × List Task)
  unfolding flushed
  flush_senders tunnels [] tasks = ok ([], tasks)
  flush_senders tunnels ((peer_id, sender) ∷ senders) tasks = do
    (sender', shards) ← flush_partial rs sender
    (senders', tasks') ←
        flush_senders tunnels senders (flushed (lookup peer_id tunnels) shards tasks)
    ok ((peer_id, sender') ∷ senders', tasks')

  unfoldable pub expire_all : ℕ → List (Bytes × FecReceiver) → List (Bytes × FecReceiver)
  expire_all now [] = []
  expire_all now ((peer_id, receiver) ∷ rs) =
      (peer_id, expire_old now 500 receiver) ∷ expire_all now rs

  unfoldable pub flush_fec : ℕ → Forwarder → Run Forwarder
  unfolding flush_senders expire_all
  flush_fec now f = do
    (senders, tasks) ← flush_senders f.tunnels f.fec_senders f.tasks
    ok (record f {
      fec_senders = senders;
      tasks = tasks;
      fec_receivers = expire_all now f.fec_receivers;
    })

-- What wakes the loop of `run`: a packet from a peer's receive loop, or the timer. The packets that are
-- drained behind one are packets as well.
pub data Wake : Type 0 where
  inbound : ℕ → Bytes → ReceivedPacket → Wake
  tick : ℕ → Wake

module _ (a : Aead) (socket : Socket) (rs : ReedSolomon)
    (route : LatencyMatrix → Bytes → Option RouteEntry) where
  -- The loop, until the channel is closed. With each event comes whether the edge takes deliveries.
  unfoldable pub run : Forwarder → List (Wake × Bool) → Run (Forwarder × List Effect)
  run f [] = ok (f, [])
  run f ((inbound now from_peer packet, channel_open) ∷ events) = do
    (f', effects) ← handle_inbound a socket rs route now channel_open f from_peer packet
    (f'', more) ← run f' events
    ok (f'', effects ++ more)
  run f ((tick now, channel_open) ∷ events) = do f' ← flush_fec rs now f; run f' events
