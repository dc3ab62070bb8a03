-- ===== src/Mesh/Router/Decided.antt =====
-- src/mesh/router.rs: both loops of a search for a route end.
use entrouter_line.Base.{
  ℕ, zero, suc, ◌+◌, ◌%◌, ◌^◌, ◌≤◌, ◌≡◌, refl, ap, ◌∙◌, inl, inr, not, ◌&&◌, List, [], ◌∷◌, Option,
  none, some, none≢some, Bytes, bytes_eq, string_eq, lookup, insert, lookup-insert,
  lookup-insert_self, Bool-cases, Option-cases, is_some, length, take, arith,
}
use entrouter_line.Mesh.LatencyMatrix.{LatencyMatrix, nodes, all_edges, as_micros, get_rtt}
use entrouter_line.Mesh.Router.{
  via_path, via_search, via_rtt, last_cost, dijkstra_via, routes_via, add_route, insert_route,
  top_paths, neighbors, RouteEntry, Search, max_cost, or_max, all_far, start, searched, potential,
  walk_back, dijkstra_from, dijkstra, routed, next_hop, route_of,
}
use entrouter_line.Mesh.Router.Chains.{Reaches, Reaches-length, walk_back-ends}
use entrouter_line.Mesh.Router.Rooted.{Queued, IsSearch, search-IsSearch}
use entrouter_line.Mesh.Router.Rounds.{searched-ends}

pub all_far_capped : (x : Bytes) (ns : List Bytes) → or_max (lookup x (all_far ns)) ≤ max_cost
all_far_capped x [] = omega arith
all_far_capped x (n ∷ ns) = elim (Bool-cases (bytes_eq n x)) [
  | inl same ↦
      let at : or_max (lookup x (all_far (n ∷ ns))) ≡ max_cost =
        rw (lookup-insert n x max_cost (all_far ns), same) refl in
      omega (arith, at)
  | inr other ↦
      let at : or_max (lookup x (all_far (n ∷ ns))) ≡ or_max (lookup x (all_far ns)) =
        rw (lookup-insert n x max_cost (all_far ns), other) refl in
      omega (arith, at, all_far_capped x ns)
]

pub start-IsSearch :
    (m : LatencyMatrix) (node : Bytes) (cost : ℕ)
    → cost ≤ max_cost
    → IsSearch node (start m node cost)
unfolding Queued Reaches
start-IsSearch m node cost small =
    let far = all_far (nodes m) in
    let here : or_max (lookup node (insert node cost far)) ≡ cost =
      ap or_max (lookup-insert_self node cost far) in
    record {
      capped = λ x. elim (Bool-cases (bytes_eq node x)) [
        | inl same ↦
            let at : or_max (lookup x (insert node cost far)) ≡ cost =
              rw (lookup-insert node x cost far, same) refl in
            omega (arith, at)
        | inr other ↦
            let at : or_max (lookup x (insert node cost far)) ≡ or_max (lookup x far) =
              rw (lookup-insert node x cost far, other) refl in
            omega (arith, at, all_far_capped x (nodes m))
      ];
      ordered = λ x p e. absurd (none≢some e);
      rooted = λ x p e. absurd (none≢some e);
      queued = (((zero, refl), omega (arith, here)), tt);
    }

walk_back_lost :
    (n : ℕ) (prev : List (Bytes × Bytes)) (stop : Bytes) (path : List Bytes) (x : Bytes)
    → lookup x prev ≡ none
    → (o : Option (List Bytes)) × (walk_back (suc n) prev stop path x ≡ some o)
unfolding walk_back
walk_back_lost n prev stop path x lost = elim (Bool-cases (bytes_eq x stop)) [
  | inl there ↦ (some path, rw (there, walk_back))
  | inr on ↦ (none, rw (on, walk_back, lost))
]

-- The walk back over what a search left ends, at any node.
walk_back-decided :
    (stop : Bytes) (u : Search) (path : List Bytes) (x : Bytes)
    → IsSearch stop u
    → (o : Option (List Bytes)) × (walk_back (length u.prev + 1) u.prev stop path x ≡ some o)
walk_back-decided stop u path x i = elim (Option-cases (lookup x u.prev)) [
  | inr (p, found) ↦
      let (n, r) = i.rooted x p found in
      let (q, run) =
        walk_back-ends (length u.prev + 1) n u.prev stop path x
          (omega (arith, Reaches-length n u.prev stop x r)) r in
      (some q, run)
  | inl lost ↦
      let (o, run) = walk_back_lost (length u.prev) u.prev stop path x lost in
      let fuel : length u.prev + 1 ≡ suc (length u.prev) = omega arith in
      (o, ap (λ n. walk_back n u.prev stop path x) fuel ∙ run)
]

-- A search and the walk back after it.
searched-IsSearch :
    (m : LatencyMatrix) (node destination : Bytes) (cost : ℕ)
    → cost ≤ max_cost
    → (u : Search) × (searched m node cost destination ≡ some u) × IsSearch node u
searched-IsSearch m node destination cost small =
    let (u, run) = searched-ends m node destination cost in
    let s = start m node cost in
    (
      u,
      run,
      search-IsSearch node (potential s + 1) (all_edges m) destination s u
          (start-IsSearch m node cost small) run,
    )

routed-decided :
    (m : LatencyMatrix) (o : Option (List Bytes))
    → (r : Option RouteEntry) × (routed m (some o) ≡ some r)
routed-decided m none = (none, refl)
routed-decided m (some path) = (route_of m path, refl)

via_path-decided :
    (local_node via : Bytes) (cost : ℕ) (o : Option (List Bytes))
    → (r : Option RouteEntry) × (via_path local_node via cost (some o) ≡ some r)
unfolding via_path
via_path-decided local_node via cost none = (none, refl)
via_path-decided local_node via cost (some path) = (some _, refl)

via_search-decided :
    (m : LatencyMatrix) (local_node via destination : Bytes) (u : Search)
    → IsSearch via u
    → (r : Option RouteEntry) × (via_search local_node via destination (some u) ≡ some r)
unfolding via_search
via_search-decided m local_node via destination u i =
    elim (Bool-cases
      (not (is_some (lookup destination u.prev)) && not (bytes_eq via destination))) [
        | inl lost ↦ (none, rw lost refl)
        | inr found ↦
            let (o, walk) = walk_back-decided via u (destination ∷ []) destination i in
            let (r, path) = via_path-decided local_node via (last_cost destination u) o in
            (r, rw (found, walk) path)
      ]

pub via_rtt-decided :
    (m : LatencyMatrix) (local_node via destination : Bytes) (rtt : Option ℕ)
    → (r : Option RouteEntry) × (via_rtt m local_node via destination rtt ≡ some r)
unfolding via_rtt
via_rtt-decided m local_node via destination none = (none, refl)
via_rtt-decided m local_node via destination (some rtt) =
    let cost = as_micros rtt % 2 ^ 64 in
    let (u, run, i) = searched-IsSearch m via destination cost (omega arith) in
    let (r, found) = via_search-decided m local_node via destination u i in
    (r, ap (via_search local_node via destination) run ∙ found)

dijkstra-decided :
    (m : LatencyMatrix) (local_node destination : Bytes)
    → (o : Option (List Bytes)) × (dijkstra m local_node destination ≡ some o)
unfolding dijkstra dijkstra_from
dijkstra-decided m local_node destination =
    let (u, run, i) = searched-IsSearch m local_node destination 0 (omega arith) in
    let (o, walk) = walk_back-decided local_node u (destination ∷ []) destination i in
    (o, ap (dijkstra_from local_node destination) run ∙ walk)

add_route-decided :
    (o : Option RouteEntry) (rs : List RouteEntry)
    → (qs : List RouteEntry) × (add_route (some o) (some rs) ≡ some qs)
add_route-decided none rs = (rs, refl)
add_route-decided (some r) rs = (insert_route r rs, refl)

routes_via-decided :
    (m : LatencyMatrix) (local_node destination : Bytes) (ns : List Bytes)
    → (rs : List RouteEntry) × (routes_via m local_node destination ns ≡ some rs)
unfolding routes_via dijkstra_via
routes_via-decided m local_node destination [] = ([], refl)
routes_via-decided m local_node destination (n ∷ ns) =
    let (rs, rest) = routes_via-decided m local_node destination ns in
    let (o, one) = via_rtt-decided m local_node n destination (get_rtt m local_node n) in
    let (qs, both) = add_route-decided o rs in (qs, rw (one, rest) both)

-- `next_hop`, `dijkstra_via` and `top_paths` always return, whatever the matrix: no loop of theirs runs
-- out of its fuel.
pub next_hop-decided :
    (m : LatencyMatrix) (local_node destination via : Bytes) (n : ℕ)
    → ((o : Option RouteEntry) × (next_hop m local_node destination ≡ some o))
      × ((o : Option RouteEntry) × (dijkstra_via m local_node via destination ≡ some o))
      × ((rs : List RouteEntry) × (top_paths m local_node destination n ≡ some rs))
unfolding next_hop dijkstra_via top_paths
next_hop-decided m local_node destination via n =
    let (o, found) = dijkstra-decided m local_node destination in
    let (r, route) = routed-decided m o in
    let (rs, routes) =
      routes_via-decided m local_node destination (neighbors local_node (all_edges m)) in
    elim (Bool-cases (bytes_eq destination local_node)) [
      | inl here ↦ (
        (none, rw here refl),
        via_rtt-decided m local_node via destination (get_rtt m local_node via),
        ([], rw here refl),
      )
      | inr away ↦ (
        (r, rw (away, found) route),
        via_rtt-decided m local_node via destination (get_rtt m local_node via),
        (take n rs, rw (away, routes) refl),
      )
    ]
