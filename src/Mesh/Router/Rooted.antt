-- ===== src/Mesh/Router/Rooted.antt =====
-- src/mesh/router.rs: what the searches keep true, and that a route is always decided.
use entrouter_line.Base.{
  ℕ, zero, suc, ◌%◌, ◌^◌, ◌≤◌, ◌<◌, ◌≡◌, ◌≢◌, refl, sym, ap, ◌∙◌, inl, inr, Bool, true, false, ◌&&◌,
  List, [], ◌∷◌, some, some-injective, none≢some, Bytes, bytes_eq, bytes_eq_iff, string_eq, lookup,
  insert, lookup-insert_self, lookup-insert_ne, ltb, ltb→lt, leb, All, Bool-cases, Option-cases,
  arith,
}
use mathlib.Core.Bool.{false≢true}
use mathlib.Core.Path.{subst}
use entrouter_line.Mesh.LatencyMatrix.{Edge, as_micros}
use entrouter_line.Mesh.Router.{
  DijkstraState, pop_min, pop, Search, max_cost, saturating_add, dist_of, relax, relax_all, visit,
  search,
}
use entrouter_line.Mesh.Router.Distances.{moved, dist-moved_self, dist-moved_ne, dist-moved_less}
use entrouter_line.Mesh.Router.Chains.{Reaches, Reaches-insert, bytes_ne}

-- A node from which `prev` leads back to the start.
abbrev pub Rooted : List (Bytes × Bytes) → Bytes → Bytes → Type 0
Rooted prev stop x = (n : ℕ) × Reaches prev stop n x

unfoldable pub Queued : Search → Bytes → DijkstraState → Type 0
Queued s stop (cost, node) = Rooted s.prev stop node × (dist_of node s ≤ cost)

pub record IsSearch (stop : Bytes) (s : Search) : Type 0 where
  pub capped : (x : Bytes) → dist_of x s ≤ max_cost
  pub ordered : (x p : Bytes) → lookup x s.prev ≡ some p → dist_of p s ≤ dist_of x s
  pub rooted : (x p : Bytes) → lookup x s.prev ≡ some p → Rooted s.prev stop x
  pub queued : All (Queued s stop) s.heap

-- Along a chain the distances fall, so that a node further away than its start is not on it.
Reaches-far :
    (s : Search) (stop v u : Bytes) (n : ℕ) (y : Bytes)
    → IsSearch stop s
    → Reaches s.prev stop n y
    → dist_of y s < dist_of v s
    → Reaches (insert v u s.prev) stop n y × (v ≢ stop)
unfolding Reaches
Reaches-far s stop v u zero y i r far = (
  r,
  λ e.
      let same : dist_of y s ≡ dist_of v s = ap (λ x. dist_of x s) (r ∙ sym e) in
      omega (arith, same, far),
)
Reaches-far s stop v u (suc n) y i (ne, (p, e, r)) far =
    let apart : v ≢ y = λ q.
      let same : dist_of v s ≡ dist_of y s = ap (λ x. dist_of x s) q in omega (arith, same, far) in
    let (rest, off) = Reaches-far s stop v u n p i r (omega (arith, i.ordered y p e, far)) in
    ((ne, (p, lookup-insert_ne v y u s.prev apart ∙ e, rest)), off)

module _ (stop : Bytes) (s : Search) (i : IsSearch stop s) (u v : Bytes) (new_cost : ℕ)
    (root : Rooted s.prev stop u) (more : dist_of u s ≤ new_cost)
    (nearer : new_cost < dist_of v s) where
  abbrev after : Search
  after = moved s u v new_cost

  chain_of_u : Reaches after.prev stop root.0 u × (v ≢ stop)
  chain_of_u = Reaches-far s stop v u root.0 u i root.1 (omega (arith, more, nearer))

  root_after : (x : Bytes) → Rooted s.prev stop x → Rooted after.prev stop x
  root_after x r = Reaches-insert s.prev stop v u root.0 chain_of_u.0 r.0 x r.1

  root_after_v : Rooted after.prev stop v
  unfolding Reaches
  root_after_v = (suc root.0, (chain_of_u.1, (u, lookup-insert_self v u s.prev, chain_of_u.0)))

  heap_after : (heap : List DijkstraState) → All (Queued s stop) heap → All (Queued after stop) heap
  unfolding Queued
  heap_after [] h = tt
  heap_after ((cost, node) ∷ heap) (q, qs) = (
    (root_after node q.0, omega (arith, q.1, dist-moved_less s u v new_cost nearer node)),
    heap_after heap qs,
  )

  ordered_after : (x p : Bytes) → lookup x after.prev ≡ some p → dist_of p after ≤ dist_of x after
  ordered_after x p e = elim (Bool-cases (bytes_eq v x)) [
    | inl same ↦
        let at : v ≡ x = (bytes_eq_iff v x).0 same in
        let parent : u ≡ p = some-injective (
          sym (lookup-insert_self v u s.prev)
          ∙ subst (λ y. lookup y after.prev ≡ some p) (sym at) e) in
        subst (λ y. dist_of p after ≤ dist_of y after) at
          (subst (λ q. dist_of q after ≤ dist_of v after) parent
            (omega (
              arith,
              dist-moved_less s u v new_cost nearer u,
              more,
              dist-moved_self s u v new_cost,
            )))
    | inr other ↦
        let ne = bytes_ne v x other in
        let old = i.ordered x p (sym (lookup-insert_ne v x u s.prev ne) ∙ e) in
        omega
          (arith, old, dist-moved_less s u v new_cost nearer p, dist-moved_ne s u v new_cost x ne)
  ]

  after-IsSearch : IsSearch stop after
  unfolding Queued
  after-IsSearch = record {
    capped = λ x. omega (arith, i.capped x, dist-moved_less s u v new_cost nearer x);
    ordered = ordered_after;
    rooted = λ x p e. elim (Bool-cases (bytes_eq v x)) [
      | inl same ↦ subst (Rooted after.prev stop) ((bytes_eq_iff v x).0 same) root_after_v
      | inr other ↦
          root_after x (i.rooted x p (sym (lookup-insert_ne v x u s.prev (bytes_ne v x other)) ∙ e))
    ];
    queued =
        ((root_after_v, omega (arith, dist-moved_self s u v new_cost)), heap_after s.heap i.queued);
  }

pub ltb-false : (a b : ℕ) → ltb a b ≡ false → b ≤ a
ltb-false a b h = ground arith

pub &&-both : (a b : Bool) → (a && b) ≡ true → (a ≡ true) × (b ≡ true)
&&-both true b e = (refl, e)
&&-both false b e = absurd (false≢true e)

-- What the loop over the edges keeps, of the node that is expanded too.
unfoldable pub Expanding : Bytes → Bytes → ℕ → Search → Type 0
Expanding stop node cost s = IsSearch stop s × (Rooted s.prev stop node × (dist_of node s ≡ cost))

pub relax-Expanding :
    (stop node : Bytes) (cost : ℕ) (e : Edge) (s : Search)
    → Expanding stop node cost s
    → Expanding stop node cost (relax node cost e s)
unfolding Expanding relax
relax-Expanding stop node cost (from, to, rtt) s (i, (root, at)) =
    let new_cost = saturating_add cost (as_micros rtt % 2 ^ 64) in
    elim (Bool-cases (bytes_eq from node && ltb new_cost (dist_of to s))) [
      | inl hit ↦
          let nearer =
            ltb→lt new_cost (dist_of to s)
              (&&-both (bytes_eq from node) (ltb new_cost (dist_of to s)) hit).1 in
          let more : dist_of node s ≤ new_cost = omega (arith, i.capped node, at) in
          let apart : to ≢ node = λ q.
            let same : dist_of to s ≡ dist_of node s = ap (λ x. dist_of x s) q in
            omega (arith, same, more, nearer) in
          rw hit (
            after-IsSearch stop s i node to new_cost root more nearer,
            (
              root_after stop s i node to new_cost root more nearer node root,
              dist-moved_ne s node to new_cost node apart ∙ at,
            ),
          )
      | inr miss ↦ rw miss (i, (root, at))
    ]

relax_all-Expanding :
    (stop node : Bytes) (cost : ℕ) (edges : List Edge) (s : Search)
    → Expanding stop node cost s
    → Expanding stop node cost (relax_all node cost edges s)
unfolding relax_all
relax_all-Expanding stop node cost [] s x = x
relax_all-Expanding stop node cost (e ∷ edges) s x =
    relax_all-Expanding stop node cost edges (relax node cost e s)
      (relax-Expanding stop node cost e s x)

pub visit-IsSearch :
    (stop : Bytes) (edges : List Edge) (top : DijkstraState) (s : Search)
    → IsSearch stop s
    → Queued s stop top
    → IsSearch stop (visit edges top s)
unfolding visit Queued Expanding
visit-IsSearch stop edges (cost, node) s i (root, near) =
    elim (Bool-cases (ltb (dist_of node s) cost)) [
      | inl stale ↦ rw stale i
      | inr fresh ↦
          let at : dist_of node s ≡ cost =
            omega (arith, near, ltb-false (dist_of node s) cost fresh) in
          rw fresh (relax_all-Expanding stop node cost edges s (i, (root, at))).0
    ]

All-pop_min :
    (P : DijkstraState → Type 0) (s : DijkstraState) (ss : List DijkstraState)
    → P s
    → All P ss
    → P (pop_min s ss).0 × All P (pop_min s ss).1
All-pop_min P s [] p ps = (p, tt)
All-pop_min P s (t ∷ ts) p (q, qs) = elim (Bool-cases (leb s.0 t.0)) [
  | inl keep ↦ let (least, rest) = All-pop_min P s ts p qs in rw keep (least, (q, rest))
  | inr swap ↦ let (least, rest) = All-pop_min P t ts q qs in rw swap (least, (p, rest))
]

pub All-pop :
    (P : DijkstraState → Type 0) (heap : List DijkstraState)
    (r : DijkstraState × List DijkstraState)
    → All P heap
    → pop heap ≡ some r
    → P r.0 × All P r.1
All-pop P [] r ps e = absurd (none≢some e)
All-pop P (s ∷ ss) r (p, ps) e =
    subst (λ (q : DijkstraState × List DijkstraState). P q.0 × All P q.1) (some-injective e)
      (All-pop_min P s ss p ps)

pub search-IsSearch :
    (stop : Bytes) (fuel : ℕ) (edges : List Edge) (destination : Bytes) (s u : Search)
    → IsSearch stop s
    → search fuel edges destination s ≡ some u
    → IsSearch stop u
unfolding search Queued
search-IsSearch stop zero edges destination s u i e = absurd (none≢some e)
search-IsSearch stop (suc fuel) edges destination s u i e = elim (Option-cases (pop s.heap)) [
  | inl empty ↦
      let run : search (suc fuel) edges destination s ≡ some s = rw (empty, search) in
      subst (IsSearch stop) (some-injective (sym run ∙ e)) i
  | inr (r, popped) ↦
      let (top, rest) = All-pop (Queued s stop) s.heap r i.queued popped in
      let s' : Search = record s { heap = r.1 } in
      let i' : IsSearch stop s' = record {
        capped = i.capped;
        ordered = i.ordered;
        rooted = i.rooted;
        queued = rest;
      } in
      elim (Bool-cases (bytes_eq r.0.1 destination)) [
        | inl there ↦
            let run : search (suc fuel) edges destination s ≡ some s' =
              rw (popped, search, there) in
            subst (IsSearch stop) (some-injective (sym run ∙ e)) i'
        | inr on ↦
            let next = visit edges r.0 s' in
            let run : search (suc fuel) edges destination s ≡ search fuel edges destination next =
              rw (popped, search, on) in
            search-IsSearch stop fuel edges destination next u
              (visit-IsSearch stop edges r.0 s' i' top) (sym run ∙ e)
      ]
]
