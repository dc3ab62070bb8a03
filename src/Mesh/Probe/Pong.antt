-- ===== src/Mesh/Probe/Pong.antt =====
-- src/mesh/probe.rs: what a pong does that answers a ping, and one that does not.
use entrouter_line.Base.{
  ℕ, ◌-◌, ◌^◌, ◌≤◌, ◌<◌, ◌≡◌, refl, ap, ◌∙◌, List, ◌++◌, none, some, Bytes, lookup, insert, remove,
  nat_eq, to_le, from_le, from_le-to_le, take, length, ltb, le→ltb, lt→ltb, lookup-insert_self,
  lookup-remove_self, lookup-remove, lookup-retain_kept, arith,
}
use native.Mathlib.Decide.{dec_lt}
use entrouter_line.Mesh.LatencyMatrix.{update}
use entrouter_line.Mesh.Probe.{Prober, create_ping, handle_pong, answered, max_age}

-- A pong that is long enough, as the answer to the probe whose number it starts with.
handle_pong_long :
    (now : ℕ) (p : Prober) (from_peer payload : Bytes)
    → 4 ≤ length payload
    → handle_pong now p from_peer payload
      ≡ answered now
          (record p { pending = remove (from_le (take 4 payload)) p.pending })
          (lookup (from_le (take 4 payload)) p.pending)
unfolding handle_pong
handle_pong_long now p from_peer payload h = rw (le→ltb (length payload) 4 h)

lookup-remove-none :
    (k j : ℕ) (m : List (ℕ × (Bytes × ℕ))) → lookup k m ≡ none → lookup j (remove k m) ≡ lookup j m
lookup-remove-none k j m h = ground (arith, lookup-remove k j m)

-- A pong that is too short, or answers no pending ping, changes neither the matrix nor which
-- probes are pending, nor the next number.
pub handle_pong_unsolicited :
    (now : ℕ) (p : Prober) (from_peer payload : Bytes)
    → (4 ≤ length payload → lookup (from_le (take 4 payload)) p.pending ≡ none)
    → let q = handle_pong now p from_peer payload in
      (q.matrix ≡ p.matrix)
      × ((j : ℕ) → lookup j q.pending ≡ lookup j p.pending)
      × (q.next_probe_id ≡ p.next_probe_id)
unfolding handle_pong answered
handle_pong_unsolicited now p from_peer payload h = elim (dec_lt (length payload) 4) [
  | yes short ↦ let e = lt→ltb (length payload) 4 short in (rw e, λ j. rw e, rw e)
  | no long ↦
      let e = le→ltb (length payload) 4 (omega arith) in
      let id = from_le (take 4 payload) in
      (
        rw (e, h (omega arith)),
        λ j. rw (e, h (omega arith)) (lookup-remove-none id j p.pending (h (omega arith))),
        rw (e, h (omega arith)),
      )
]

module _ (p : Prober) (id : ℕ) (from_peer rest : Bytes) (small : id < 2 ^ 32) where
  pong : Bytes
  pong = to_le 4 id ++ rest

  pong_id : from_le (take 4 pong) ≡ id
  unfolding pong
  pong_id = from_le-to_le 4 id small

  -- The pong of a number, long or not.
  handle_pong-pong :
      (now : ℕ)
      → handle_pong now p from_peer pong
        ≡ answered now (record p { pending = remove id p.pending }) (lookup id p.pending)
  unfolding pong
  handle_pong-pong now =
      handle_pong_long now p from_peer pong (omega arith)
      ∙ ap (λ n. answered now (record p { pending = remove n p.pending }) (lookup n p.pending))
          pong_id

-- The ping that `create_ping` returns has 4 bytes, and 10 seconds are not over when old probes are
-- cleaned up. A pong that echoes it, at any time and from any peer, updates the matrix in both
-- directions with the time since the ping; the probe is pending no more, so that the same pong again
-- leaves the matrix as it is.
pub handle_pong-create_ping :
    (sent clean now again : ℕ) (p : Prober) (peer_id from_peer rest : Bytes)
    → p.next_probe_id < 2 ^ 32
    → clean - sent < max_age
    → let (q, ping) = create_ping sent clean p peer_id in
      let r = handle_pong now q from_peer (ping ++ rest) in
      (length ping ≡ 4)
      × (q.next_probe_id < 2 ^ 32)
      × (r.matrix
          ≡ update now
              (update now p.matrix p.node_id peer_id (now - sent))
              peer_id
              p.node_id
              (now - sent))
      × (lookup p.next_probe_id r.pending ≡ none)
      × ((handle_pong again r from_peer (ping ++ rest)).matrix ≡ r.matrix)
unfolding create_ping answered pong
handle_pong-create_ping sent clean now again p peer_id from_peer rest small fresh =
    let id = p.next_probe_id in
    let (q, ping) = create_ping sent clean p peer_id in
    let there : lookup id q.pending ≡ some (peer_id, sent) =
      lookup-retain_kept (λ e. ltb (clean - e.1) max_age) id (peer_id, sent)
        (insert id (peer_id, sent) p.pending) (lookup-insert_self id (peer_id, sent) p.pending)
        (lt→ltb (clean - sent) max_age fresh) in
    let r = handle_pong now q from_peer (ping ++ rest) in
    let first : r
        ≡ answered now (record q { pending = remove id q.pending }) (some (peer_id, sent)) =
      handle_pong-pong q id from_peer rest small now
      ∙ ap (answered now (record q { pending = remove id q.pending })) there in
    let gone : lookup id r.pending ≡ none =
      ap (λ (x : Prober). lookup id x.pending) first ∙ lookup-remove_self id q.pending in
    let second : (handle_pong again r from_peer (ping ++ rest)).matrix ≡ r.matrix =
      ap (λ (x : Prober). x.matrix)
        (handle_pong-pong r id from_peer rest small again
          ∙ ap (answered again (record r { pending = remove id r.pending })) gone) in
    (refl, omega arith, ap (λ (x : Prober). x.matrix) first, gone, second)
