-- ===== src/Mesh/Router/Shortest.antt =====
-- src/mesh/router.rs: a route is a path of the least cost.
use entrouter_line.Base.{
  ℕ, zero, suc, ◌+◌, ◌≤◌, ◌<◌, ◌≡◌, ◌≢◌, refl, sym, ap, ◌∙◌, inl, inr, ◌&&◌, List, [], ◌∷◌, none,
  some, some-injective, none≢some, Bytes, bytes_eq, bytes_eq_iff, string_eq, pair_eq, lookup,
  insert, lookup-insert, lookup-insert_self, lookup-insert_ne, All, if◌then◌else◌, Bool-cases,
  Option-cases, is_some, min, length, arith,
}
use mathlib.Core.Bool.{false≢true}
use mathlib.Core.Path.{subst}
use entrouter_line.Mesh.LatencyMatrix.{
  LatencyMatrix, LatencyEntry, Edge, all_edges, get_rtt, rtt_of, nodes,
}
use entrouter_line.Mesh.LatencyMatrix.Entries.{IsDistinct}
use entrouter_line.Mesh.Router.{
  Search, RouteEntry, max_cost, or_max, dist_of, or_zero, start, all_far, searched, potential,
  walk_back, dijkstra_from, dijkstra, routed, next_hop, path_cost,
}
use entrouter_line.Mesh.Router.Chains.{Reaches-length, walk_back-ends, bytes_ne}
use entrouter_line.Mesh.Router.Paths.{IsPath, Measured, dijkstra_from-IsPath}
use entrouter_line.Mesh.Router.Decided.{start-IsSearch}
use entrouter_line.Mesh.Router.Rounds.{searched-ends}
use entrouter_line.Mesh.Router.Rooted.{search-IsSearch}
use entrouter_line.Mesh.Router.Short.{micros, IsEntry, Waits, Settled, IsShort}
use entrouter_line.Mesh.Router.Least.{IsFinal, Ended, search-Ended}

-- The cost of a path as the search counts it: whole microseconds for each edge.
unfoldable pub micros_cost : LatencyMatrix → List Bytes → ℕ
micros_cost m [] = 0
micros_cost m (a ∷ []) = 0
micros_cost m (a ∷ b ∷ path) = micros m a b + micros_cost m (b ∷ path)

-- An edge that is measured is among the edges.
All-edge :
    (P : Edge → Type 0) (m : LatencyMatrix) (a b : Bytes)
    → Measured m a b
    → All P (all_edges m)
    → P (a, b, or_zero (get_rtt m a b))
unfolding all_edges
All-edge P [] a b h ps = absurd (false≢true h)
All-edge P (((from, to), e) ∷ m) a b h (p, ps) =
    elim (Bool-cases (bytes_eq from a && bytes_eq to b)) [
      | inl same ↦
          let at : (from, to) ≡ (a, b) = (pair_eq.beq_iff (from, to) (a, b)).0 same in
          rw same (subst (λ (k : Bytes × Bytes). P (k.0, k.1, e.smoothed_rtt)) at p)
      | inr other ↦
          let there : Measured m a b =
            sym (ap (λ t. is_some (rtt_of (if t then some e else lookup (a, b) m))) other) ∙ h in
          rw other (All-edge P m a b there ps)
    ]

all_edges-IsEntry :
    (m es : LatencyMatrix)
    → IsDistinct es
    → ((k : Bytes × Bytes) (e : LatencyEntry) → lookup k es ≡ some e → lookup k m ≡ some e)
    → All (IsEntry m) (all_edges es)
unfolding all_edges IsEntry IsDistinct
all_edges-IsEntry m [] d h = tt
all_edges-IsEntry m (((from, to), e) ∷ es) (new, d) h = (
  ap rtt_of (
      h (from, to) e
        (ap (λ t. if t then some e else lookup (from, to) es)
          ((pair_eq.beq_iff (from, to) (from, to)).1 refl))),
  all_edges-IsEntry m es d (λ k w found. elim (Bool-cases (pair_eq.beq (from, to) k)) [
    | inl same ↦
        let at : (from, to) ≡ k = (pair_eq.beq_iff (from, to) k).0 same in
        absurd (none≢some (sym new ∙ subst (λ j. lookup j es ≡ some w) (sym at) found))
    | inr other ↦ h k w (ap (λ t. if t then some e else lookup k es) other ∙ found)
  ]),
)

all_far_max : (x : Bytes) (ns : List Bytes) → or_max (lookup x (all_far ns)) ≡ max_cost
all_far_max x [] = refl
all_far_max x (n ∷ ns) = elim (Bool-cases (bytes_eq n x)) [
  | inl same ↦ rw (lookup-insert n x max_cost (all_far ns), same) refl
  | inr other ↦ rw (lookup-insert n x max_cost (all_far ns), other) (all_far_max x ns)
]

all_far_but :
    (node : Bytes) (cost : ℕ) (ns : List Bytes) (x : Bytes)
    → node ≢ x
    → or_max (lookup x (insert node cost (all_far ns))) ≡ max_cost
all_far_but node cost ns x ne =
    ap or_max (lookup-insert_ne node x cost (all_far ns) ne) ∙ all_far_max x ns

start-Settled :
    (m : LatencyMatrix) (node : Bytes) (es : List Edge) → All (Settled (start m node 0)) es
unfolding Settled Waits
start-Settled m node [] = tt
start-Settled m node ((from, to, rtt) ∷ es) = (
  elim (Bool-cases (bytes_eq node from)) [
    | inl same ↦
        let at : node ≡ from = (bytes_eq_iff node from).0 same in
        let here : dist_of from (start m node 0) ≡ 0 =
          subst (λ y. dist_of y (start m node 0) ≡ 0) at
            (ap or_max (lookup-insert_self node 0 (all_far (nodes m)))) in
        inr (
          inl (
            inl (ap (λ d. (d, node)) (sym here) ∙ ap (λ y. (dist_of from (start m node 0), y)) at)))
    | inr other ↦ inl (all_far_but node 0 (nodes m) from (bytes_ne node from other))
  ],
  start-Settled m node es,
)

start-IsShort : (m : LatencyMatrix) (node : Bytes) → IsShort m node (start m node 0)
start-IsShort m node = record {
  origin = omega (arith, ap or_max (lookup-insert_self node 0 (all_far (nodes m))));
  cheap = λ x p e. absurd (none≢some e);
  found = λ x near. elim (Bool-cases (bytes_eq node x)) [
    | inl same ↦ inl (sym ((bytes_eq_iff node x).0 same))
    | inr other ↦
        absurd (omega (arith, near, all_far_but node 0 (nodes m) x (bytes_ne node x other)))
  ];
}

walk_back_cost :
    (m : LatencyMatrix) (stop : Bytes) (s : Search) (fuel : ℕ) (current : Bytes)
    (path q : List Bytes)
    → IsShort m stop s
    → walk_back fuel s.prev stop (current ∷ path) current ≡ some (some q)
    → micros_cost m q ≤ dist_of current s + micros_cost m (current ∷ path)
unfolding walk_back micros_cost
walk_back_cost m stop s zero current path q short e = absurd (none≢some e)
walk_back_cost m stop s (suc fuel) current path q short e =
    elim (Bool-cases (bytes_eq current stop)) [
      | inl there ↦
          let run : walk_back (suc fuel) s.prev stop (current ∷ path) current
              ≡ some (some (current ∷ path)) =
            rw (there, walk_back) in
          let same : current ∷ path ≡ q = some-injective (some-injective (sym run ∙ e)) in
          omega (arith, ap (micros_cost m) same)
      | inr on ↦ elim (Option-cases (lookup current s.prev)) [
        | inl lost ↦
            let run : walk_back (suc fuel) s.prev stop (current ∷ path) current ≡ some none =
              rw (on, walk_back, lost) in
            absurd (none≢some (some-injective (sym run ∙ e)))
        | inr (p, back) ↦
            let run : walk_back (suc fuel) s.prev stop (current ∷ path) current
                ≡ walk_back fuel s.prev stop (p ∷ current ∷ path) p =
              rw (on, walk_back, back) in
            let rest = walk_back_cost m stop s fuel p (current ∷ path) q short (sym run ∙ e) in
            omega (arith, rest, short.cheap current p back)
      ]
    ]

-- Along a path the distances grow at most by its cost.
along_path :
    (m : LatencyMatrix) (s : Search) (bound : ℕ) (destination a : Bytes) (path : List Bytes) (k : ℕ)
    → All (IsFinal bound s) (all_edges m)
    → IsPath m destination (a ∷ path)
    → min (dist_of a s) bound ≤ k
    → min (dist_of destination s) bound ≤ k + micros_cost m (a ∷ path)
unfolding micros_cost IsFinal
along_path m s bound destination a [] k final at less =
    let same : dist_of a s ≡ dist_of destination s = ap (λ y. dist_of y s) at in
    omega (arith, same, less)
along_path m s bound destination a (b ∷ path) k final (measured, rest) less =
    let edge = All-edge (IsFinal bound s) m a b measured final in
    let next : min (dist_of b s) bound ≤ k + micros m a b = elim edge [
      | inl beyond ↦ omega (arith, beyond, less)
      | inr long ↦ omega (arith, long, less)
    ] in
    let there = along_path m s bound destination b path (k + micros m a b) final rest next in
    omega (arith, there)

-- The search left a path to the destination that no other undercuts.
dijkstra-least :
    (m : LatencyMatrix) (local_node destination : Bytes) (p : List Bytes)
    → IsDistinct m
    → destination ≢ local_node
    → IsPath m destination (local_node ∷ p)
    → micros_cost m (local_node ∷ p) < max_cost
    → (q : List Bytes) × (dijkstra m local_node destination ≡ some (some q))
      × (micros_cost m q ≤ micros_cost m (local_node ∷ p))
unfolding dijkstra dijkstra_from Ended micros_cost
dijkstra-least m local_node destination p d away path small =
    let first = start m local_node 0 in
    let (u, run) = searched-ends m local_node destination 0 in
    let i0 = start-IsSearch m local_node 0 (omega arith) in
    let i =
      search-IsSearch local_node (potential first + 1) (all_edges m) destination first u i0 run in
    let (short, (bound, near, final)) =
      search-Ended m local_node (potential first + 1) (all_edges m) destination first u
        (all_edges-IsEntry m m d (λ k e h. h)) i0 (start-IsShort m local_node)
        (start-Settled m local_node (all_edges m)) run in
    let least =
      along_path m u bound destination local_node p 0 final path (omega (arith, short.origin)) in
    let far : dist_of destination u ≤ micros_cost m (local_node ∷ p) = omega (arith, least, near) in
    elim (short.found destination (omega (arith, far, small))) [
      | inl here ↦ absurd (away here)
      | inr (x, back) ↦
          let (n, r) = i.rooted destination x back in
          let (q, walk) =
            walk_back-ends (length u.prev + 1) n u.prev local_node (destination ∷ []) destination
              (omega (arith, Reaches-length n u.prev local_node destination r)) r in
          let cost =
            walk_back_cost m local_node u (length u.prev + 1) destination [] q short walk in
          (q, ap (dijkstra_from local_node destination) run ∙ walk, omega (arith, cost, far))
    ]

routed-least :
    (m : LatencyMatrix) (local_node destination : Bytes) (q p : List Bytes)
    → destination ≢ local_node
    → q ≡ local_node ∷ p
    → IsPath m destination q
    → (r : RouteEntry) × (routed m (some (some q)) ≡ some (some r)) × (r.path ≡ q)
routed-least m local_node destination [] p away e h = absurd h
routed-least m local_node destination (a ∷ []) p away e h =
    let first : a ≡ local_node = cc in absurd (away (sym h ∙ first))
routed-least m local_node destination (a ∷ b ∷ q) p away e h = (
  record { next_hop_node = b; total_rtt = path_cost m (a ∷ b ∷ q); path = a ∷ b ∷ q },
  refl,
  refl,
)

-- Where a path leads from the local node to another node, and its cost, counted in whole microseconds
-- for each pair, is below `u64::MAX`, a route is found, and the cost of its path is no more.
pub next_hop-least :
    (m : LatencyMatrix) (local_node destination : Bytes) (p : List Bytes)
    → IsDistinct m
    → destination ≢ local_node
    → IsPath m destination (local_node ∷ p)
    → micros_cost m (local_node ∷ p) < max_cost
    → (r : RouteEntry) × (next_hop m local_node destination ≡ some (some r))
      × IsPath m destination r.path
      × (micros_cost m r.path ≤ micros_cost m (local_node ∷ p))
unfolding next_hop dijkstra
next_hop-least m local_node destination p d away path small =
    let (q, run, least) = dijkstra-least m local_node destination p d away path small in
    let (tail, starts, is_path) =
      dijkstra_from-IsPath m local_node destination q (searched m local_node 0 destination) refl
        run in
    let (r, route, same) = routed-least m local_node destination q tail away starts is_path in
    elim (Bool-cases (bytes_eq destination local_node)) [
      | inl here ↦ absurd (away ((bytes_eq_iff destination local_node).0 here))
      | inr other ↦ (r, rw (other, run) route, rw same is_path, rw same least)
    ]
