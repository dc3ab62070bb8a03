-- ===== src/Relay/Tunnel/Tests.antt =====
-- The theorems on src/relay/tunnel.rs at inputs.
use entrouter_line.Base.{
  ℕ, ◌+◌, ◌-◌, ◌%◌, ◌^◌, ◌≤◌, ◌<◌, ◌≡◌, refl, true, false, List, [], ◌∷◌, ◌++◌, some, none, ok,
  panic, Bytes, length, replicate, All, concat, arith, nat_eq,
}
use entrouter_line.Relay.Crypto.Toy.{toy, toy-Seals}
use entrouter_line.Relay.Fec.{LossTracker}
use entrouter_line.Relay.Fec.Window.{IsTracker, lost}
use entrouter_line.Relay.Wire.{max_packet, max_payload, packet_data}
use entrouter_line.Relay.Tunnel.{
  Tunnel, new_tunnel, Socket, Peers, Outcome, truncated, received, send, split_data, received_len,
  recv_into, receive_one, Watch, catch_up, watch_frame,
}
use entrouter_line.Relay.Tunnel.Buffer.{receive_one-buffer}
use entrouter_line.Relay.Tunnel.SendReceive.{send-receive_one}
use entrouter_line.Relay.Tunnel.Gaps.{catch_up_late, watch_frame-total}
use entrouter_line.Relay.Tunnel.Blocks.{IsZero, split_data-whole}

abbrev key : Bytes
key = 7 ∷ 9 ∷ []

abbrev peers : Peers
peers = (5, (1 ∷ [], key)) ∷ []

abbrev tunnel : Tunnel
tunnel = new_tunnel 3 key

abbrev socket : Socket
socket from bytes = true

abbrev hello : Bytes
hello = 104 ∷ 105 ∷ []

empty_buffer : Bytes
empty_buffer = replicate max_packet 0

length-empty_buffer : length empty_buffer ≡ max_packet
unfolding empty_buffer
length-empty_buffer = refl

send-receive_one_example :
    (u : Tunnel) × (frame : Bytes) × (send toy socket tunnel packet_data hello
      ≡ ok (u, frame, true))
    × (u.tx_seq ≡ 1)
    × (2 ≤ max_payload
        → receive_one toy peers 5 (received_len empty_buffer frame) (recv_into empty_buffer frame)
          ≡ ok (
              received
                (1 ∷ [])
                (record { packet_type = packet_data; seq = 0; payload = hello; from = 5 })))
    × (max_payload < 2
        → receive_one toy peers 5 (received_len empty_buffer frame) (recv_into empty_buffer frame)
          ≡ ok truncated)
send-receive_one_example =
    send-receive_one toy socket tunnel packet_data hello peers 5 (1 ∷ []) empty_buffer toy-Seals
      (omega arith) (omega arith) refl length-empty_buffer

receive_one-buffer_example :
    receive_one toy peers 5 (received_len (1 ∷ 2 ∷ []) hello) (recv_into (1 ∷ 2 ∷ []) hello)
    ≡ receive_one toy peers 5 (received_len (3 ∷ 4 ∷ []) hello) (recv_into (3 ∷ 4 ∷ []) hello)
receive_one-buffer_example = receive_one-buffer toy peers 5 (1 ∷ 2 ∷ []) (3 ∷ 4 ∷ []) hello refl

split_data-whole_example :
    (0 < 3
      → (shards : List Bytes) × (rest : Bytes) × (split_data 2 (1 ∷ 2 ∷ 3 ∷ []) ≡ ok shards)
        × (length shards ≡ 2)
        × All (λ s. length s ≡ 2) shards
        × (concat shards ≡ (1 ∷ 2 ∷ 3 ∷ []) ++ rest)
        × All IsZero rest)
    × (◌≡◌ {A = ℕ} 3 0 → split_data 2 (1 ∷ 2 ∷ 3 ∷ []) ≡ panic)
split_data-whole_example = split_data-whole 2 (1 ∷ 2 ∷ 3 ∷ []) (omega arith)

abbrev tracker : LossTracker
tracker = record { window = true ∷ false ∷ []; pos = 1; count = 1 }

tracker-IsTracker : IsTracker tracker
unfolding lost
tracker-IsTracker = omega arith

catch_up_late_example :
    ((fuel : ℕ) → fuel ≤ 2 ^ 64 - (6 - 4) → catch_up fuel 6 4 tracker ≡ none)
    × ((u : LossTracker) × (catch_up (2 ^ 64) 6 4 tracker ≡ some (ok u))
        × (u.count ≡ length tracker.window))
catch_up_late_example =
    catch_up_late 6 4 tracker (omega arith) (omega arith) (omega arith) tracker-IsTracker

abbrev watch : Watch
watch = record { expected_seq = 4; loss_tracker = tracker }

watch_frame-total_example :
    (w' : Watch) × (outcome : Outcome) × (watch_frame toy key watch packet_data 6 3 hello
      ≡ some (ok (w', outcome)))
    × IsTracker w'.loss_tracker
    × (w'.expected_seq ≡ (6 + 1) % 2 ^ 64)
watch_frame-total_example =
    watch_frame-total toy key watch packet_data 6 3 hello (omega arith) (omega arith)
      tracker-IsTracker
