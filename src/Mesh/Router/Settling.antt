-- ===== src/Mesh/Router/Settling.antt =====
-- src/mesh/router.rs: a node that is visited settles its edges.
use entrouter_line.Base.{
  ℕ, ◌%◌, ◌^◌, ◌≤◌, ◌<◌, ◌≡◌, refl, sym, ap, ◌∙◌, ◌⊎◌, inl, inr, ◌&&◌, List, [], ◌∷◌, Bytes,
  bytes_eq, bytes_eq_iff, string_eq, ltb, ltb→lt, All, All-map, All-zip, Bool-cases, arith,
}
use mathlib.Core.Path.{subst}
use entrouter_line.Mesh.LatencyMatrix.{LatencyMatrix, Edge, as_micros}
use entrouter_line.Mesh.Router.{
  DijkstraState, Search, saturating_add, dist_of, or_zero, relax, relax_all, visit,
}
use entrouter_line.Mesh.Router.Chains.{bytes_ne}
use entrouter_line.Mesh.Router.Distances.{moved, dist-moved_self, dist-moved_ne}
use entrouter_line.Mesh.Router.Rooted.{
  IsSearch, Queued, Expanding, relax-Expanding, ltb-false, &&-both,
}
use entrouter_line.Mesh.Router.Short.{
  micros, IsEntry, Waits, Settled, IsShort, moved-IsShort, moved-Settled,
}

-- An edge is followed, or it is not.
relax-cases :
    (node : Bytes) (cost : ℕ) (from to : Bytes) (rtt : ℕ) (s : Search)
    → let new_cost = saturating_add cost (as_micros rtt % 2 ^ 64) in
      ((from ≡ node)
        × (new_cost < dist_of to s)
        × (relax node cost (from, to, rtt) s ≡ moved s node to new_cost))
      ⊎ ((relax node cost (from, to, rtt) s ≡ s) × (from ≡ node → dist_of to s ≤ new_cost))
unfolding relax
relax-cases node cost from to rtt s =
    let new_cost = saturating_add cost (as_micros rtt % 2 ^ 64) in
    elim (Bool-cases (bytes_eq from node && ltb new_cost (dist_of to s))) [
      | inl hit ↦
          let (there, less) = &&-both (bytes_eq from node) (ltb new_cost (dist_of to s)) hit in
          inl ((bytes_eq_iff from node).0 there, ltb→lt new_cost (dist_of to s) less, rw hit refl)
      | inr miss ↦ inr (
        rw miss refl,
        λ at. ltb-false new_cost (dist_of to s) (
            sym (ap (λ b. b && ltb new_cost (dist_of to s)) ((bytes_eq_iff from node).1 at))
            ∙ miss),
      )
    ]

relax-Settled :
    (node : Bytes) (cost : ℕ) (e : Edge) (s : Search) (e' : Edge)
    → Settled s e'
    → Settled (relax node cost e s) e'
relax-Settled node cost (from, to, rtt) s e' h = elim (relax-cases node cost from to rtt s) [
  | inl (there, less, run) ↦
      let new_cost = saturating_add cost (as_micros rtt % 2 ^ 64) in
      subst (λ t. Settled t e') (sym run) (moved-Settled s node to new_cost less e' h)
  | inr (run, long) ↦ subst (λ t. Settled t e') (sym run) h
]

relax-IsShort :
    (m : LatencyMatrix) (stop node : Bytes) (cost : ℕ) (e : Edge) (s : Search)
    → IsEntry m e
    → Expanding stop node cost s
    → IsShort m stop s
    → IsShort m stop (relax node cost e s)
unfolding IsEntry Expanding
relax-IsShort m stop node cost (from, to, rtt) s entry (i, (root, at)) short =
    elim (relax-cases node cost from to rtt s) [
      | inl (there, less, run) ↦
          let new_cost = saturating_add cost (as_micros rtt % 2 ^ 64) in
          let weight : micros m node to ≡ as_micros rtt % 2 ^ 64 =
            ap (λ x. micros m x to) (sym there) ∙ ap (λ o. as_micros (or_zero o) % 2 ^ 64) entry in
          subst (IsShort m stop) (sym run) (
            moved-IsShort m stop s node to new_cost (omega (arith, weight, at, less, i.capped to))
              less short)
      | inr (run, long) ↦ subst (IsShort m stop) (sym run) short
    ]

-- The edge that is followed, or is no short cut, is settled.
relax-Settled_self :
    (stop node : Bytes) (cost : ℕ) (from to : Bytes) (rtt : ℕ) (s : Search)
    → from ≡ node
    → Expanding stop node cost s
    → Settled (relax node cost (from, to, rtt) s) (from, to, rtt)
unfolding Settled Waits Expanding
relax-Settled_self stop node cost from to rtt s there (i, (root, at)) =
    elim (relax-cases node cost from to rtt s) [
      | inl (same, less, run) ↦
          let new_cost = saturating_add cost (as_micros rtt % 2 ^ 64) in
          subst (λ t. Settled t (from, to, rtt)) (sym run)
            (elim (Bool-cases (bytes_eq to from)) [
              | inl loop ↦
                  let back : to ≡ from = (bytes_eq_iff to from).0 loop in
                  let new_dist : dist_of from (moved s node to new_cost) ≡ new_cost =
                    subst (λ y. dist_of y (moved s node to new_cost) ≡ new_cost) back
                      (dist-moved_self s node to new_cost) in
                  inr (
                    inl (
                      inl (
                        ap (λ d. (d, to)) (sym new_dist)
                        ∙ ap (λ y. (dist_of from (moved s node to new_cost), y)) back)))
              | inr other ↦
                  let kept = dist-moved_ne s node to new_cost from (bytes_ne to from other) in
                  let from_dist : dist_of from s ≡ cost = ap (λ y. dist_of y s) there ∙ at in
                  inr (inr (omega (arith, kept, from_dist, dist-moved_self s node to new_cost)))
            ])
      | inr (run, long) ↦
          let from_dist : dist_of from s ≡ cost = ap (λ y. dist_of y s) there ∙ at in
          subst (λ t. Settled t (from, to, rtt)) (sym run)
            (inr (inr (omega (arith, long there, from_dist))))
    ]

relax_all-Settled :
    (node : Bytes) (cost : ℕ) (edges : List Edge) (s : Search) (e' : Edge)
    → Settled s e'
    → Settled (relax_all node cost edges s) e'
unfolding relax_all
relax_all-Settled node cost [] s e' h = h
relax_all-Settled node cost (e ∷ edges) s e' h =
    relax_all-Settled node cost edges (relax node cost e s) e' (relax-Settled node cost e s e' h)

-- All that the loop over the edges does: it settles the edges of the node.
relax_all-IsShort :
    (m : LatencyMatrix) (stop node : Bytes) (cost : ℕ) (edges : List Edge) (s : Search)
    → All (IsEntry m) edges
    → Expanding stop node cost s
    → IsShort m stop s
    → IsShort m stop (relax_all node cost edges s)
      × All (λ (e : Edge). e.0 ≡ node → Settled (relax_all node cost edges s) e) edges
unfolding relax_all
relax_all-IsShort m stop node cost [] s entries x short = (short, tt)
relax_all-IsShort m stop node cost ((from, to, rtt) ∷ edges) s (entry, entries) x short =
    let s' = relax node cost (from, to, rtt) s in
    let x' = relax-Expanding stop node cost (from, to, rtt) s x in
    let (short', rest) =
      relax_all-IsShort m stop node cost edges s' entries x'
        (relax-IsShort m stop node cost (from, to, rtt) s entry x short) in
    (
      short',
      (
        λ there.
            relax_all-Settled node cost edges s' (from, to, rtt)
              (relax-Settled_self stop node cost from to rtt s there x),
        rest,
      ),
    )

-- An edge of which the source was taken from the heap, if anything.
unfoldable pub Left : DijkstraState → Search → Edge → Type 0
Left t s (from, to, rtt) = Settled s (from, to, rtt) ⊎ (t ≡ (dist_of from s, from))

Left-other :
    (cost : ℕ) (node : Bytes) (s : Search) (e : Edge)
    → dist_of node s < cost
    → Left (cost, node) s e
    → Settled s e
unfolding Left
Left-other cost node s (from, to, rtt) stale (inl h) = h
Left-other cost node s (from, to, rtt) stale (inr e) =
    let same : node ≡ from = ap (λ (t : DijkstraState). t.1) e in
    let far : dist_of node s ≡ dist_of from s = ap (λ y. dist_of y s) same in
    absurd (omega (arith, far, stale, ap (λ (t : DijkstraState). t.0) e))

Left-Settled :
    (cost : ℕ) (node : Bytes) (s s' : Search) (e : Edge)
    → (Settled s e → Settled s' e)
    → Left (cost, node) s e
    → (e.0 ≡ node → Settled s' e)
    → Settled s' e
unfolding Left
Left-Settled cost node s s' (from, to, rtt) keep (inl h) at = keep h
Left-Settled cost node s s' (from, to, rtt) keep (inr e) at =
    at (sym (ap (λ (t : DijkstraState). t.1) e))

pub visit-IsShort :
    (m : LatencyMatrix) (stop : Bytes) (edges : List Edge) (top : DijkstraState) (s : Search)
    → All (IsEntry m) edges
    → IsSearch stop s
    → Queued s stop top
    → IsShort m stop s
    → All (Left top s) edges
    → IsShort m stop (visit edges top s) × All (Settled (visit edges top s)) edges
unfolding visit Queued Expanding
visit-IsShort m stop edges (cost, node) s entries i (root, near) short left =
    elim (Bool-cases (ltb (dist_of node s) cost)) [
      | inl stale ↦ rw stale (
        short,
        All-map (Left (cost, node) s) (Settled s)
            (λ e. Left-other cost node s e (ltb→lt (dist_of node s) cost stale)) edges left,
      )
      | inr fresh ↦
          let at : dist_of node s ≡ cost =
            omega (arith, near, ltb-false (dist_of node s) cost fresh) in
          let s' = relax_all node cost edges s in
          let (short', mine) =
            relax_all-IsShort m stop node cost edges s entries (i, (root, at)) short in
          rw fresh (
            short',
            All-zip (Left (cost, node) s) (λ (e : Edge). e.0 ≡ node → Settled s' e) (Settled s')
                (λ e. Left-Settled cost node s s' e (relax_all-Settled node cost edges s e)) edges
                left mine,
          )
    ]
