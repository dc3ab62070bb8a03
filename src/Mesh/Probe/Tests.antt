-- ===== src/Mesh/Probe/Tests.antt =====
-- Runs of src/mesh/probe.rs, and its theorems at inputs.
use entrouter_line.Base.{
  ℕ, ◌-◌, ◌^◌, ◌<◌, ◌≡◌, refl, [], ◌∷◌, ◌++◌, none, some, Bytes, lookup, nat_eq, length, arith,
}
use entrouter_line.Mesh.LatencyMatrix.{update, entry_after, get_rtt}
use entrouter_line.Mesh.Probe.{Prober, new, create_ping, handle_pong, answered, pending_count}
use entrouter_line.Mesh.Probe.Pong.{handle_pong_unsolicited, handle_pong-create_ping}

abbrev local : Bytes
local = 1 ∷ []

abbrev remote : Bytes
remote = 2 ∷ []

abbrev prober : Prober
prober = new local []

pending_count_tracks_outstanding :
    (pending_count (create_ping 0 1 (create_ping 0 1 prober remote).0 local).0 ≡ 2)
    × (pending_count (handle_pong 5 (create_ping 0 1 prober remote).0 remote (1 ∷ 0 ∷ 0 ∷ 0 ∷ []))
        ≡ 0)
    × (get_rtt
          (handle_pong 5 (create_ping 0 1 prober remote).0 remote (1 ∷ 0 ∷ 0 ∷ 0 ∷ [])).matrix
          remote
          local
        ≡ some 5)
unfolding create_ping handle_pong answered update entry_after
pending_count_tracks_outstanding = (refl, refl, refl)

handle_pong_unsolicited_example :
    let q = handle_pong 5 prober remote (231 ∷ 3 ∷ 0 ∷ 0 ∷ []) in
    (q.matrix ≡ prober.matrix)
    × ((j : ℕ) → lookup j q.pending ≡ lookup j prober.pending)
    × (q.next_probe_id ≡ 1)
handle_pong_unsolicited_example =
    handle_pong_unsolicited 5 prober remote (231 ∷ 3 ∷ 0 ∷ 0 ∷ []) (λ _. refl)

handle_pong-create_ping_example :
    let (q, ping) = create_ping 10 20 prober remote in
    let r = handle_pong 50 q remote (ping ++ []) in
    (length ping ≡ 4)
    × (q.next_probe_id < 2 ^ 32)
    × (r.matrix ≡ update 50 (update 50 [] local remote (50 - 10)) remote local (50 - 10))
    × (lookup 1 r.pending ≡ none)
    × ((handle_pong 60 r remote (ping ++ [])).matrix ≡ r.matrix)
handle_pong-create_ping_example =
    handle_pong-create_ping 10 20 50 60 prober remote remote [] (omega arith) (omega arith)
