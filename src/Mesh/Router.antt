-- ===== src/Mesh/Router.antt =====
-- src/mesh/router.rs: shortest paths over the latency matrix.
-- `BinaryHeap` is a list of which `pop` takes an element of the smallest cost; which of several, the
-- library leaves open, and here it is the first. Both loops of the source are on fuel, and `none`
-- means that it ran out. The search has as many rounds as its distances allow, of which each round
-- that adds to the heap takes one off; the walk back has one round for each entry of `prev` and one
-- more.
pub mod Paths
pub mod Rounds
pub mod Chains
pub mod Distances
pub mod Rooted
pub mod Decided
pub mod Sorted
pub mod Short
pub mod Settling
pub mod Least
pub mod Shortest
mod Tests
use entrouter_line.Base.{
  ℕ, zero, suc, ◌+◌, ◌-◌, ◌*◌, ◌%◌, ◌^◌, min, ◌≡◌, Bool, true, false, not, ◌&&◌, List, [], ◌∷◌,
  ◌++◌, map, Option, none, some, Bytes, bytes_eq, string_eq, lookup, insert, length, take, ltb, leb,
  is_some, if◌then◌else◌,
}
use entrouter_line.Mesh.LatencyMatrix.{
  LatencyMatrix, Edge, all_edges, nodes, add_name, get_rtt, as_micros, from_micros,
}

-- The field `next_hop` of the source is `next_hop_node`.
pub record RouteEntry : Type 0 where
  pub next_hop_node : Bytes
  pub total_rtt : ℕ
  pub path : List Bytes

-- `u64::MAX`.
abbrev pub max_cost : ℕ
max_cost = 18446744073709551615

abbrev pub saturating_add : ℕ → ℕ → ℕ
saturating_add a b = min (a + b) max_cost

abbrev pub DijkstraState : Type 0
DijkstraState = ℕ × Bytes

abbrev pub pop_min : DijkstraState → List DijkstraState → DijkstraState × List DijkstraState
pop_min s [] = (s, [])
pop_min s (t ∷ ts) =
    let keep = leb s.0 t.0 in
    let r = pop_min (if keep then s else t) ts in (r.0, (if keep then t else s) ∷ r.1)

abbrev pub pop : List DijkstraState → Option (DijkstraState × List DijkstraState)
pop [] = none
pop (s ∷ ss) = some (pop_min s ss)

-- The variables of the loop.
pub record Search : Type 0 where
  pub dist : List (Bytes × ℕ)
  pub prev : List (Bytes × Bytes)
  pub heap : List DijkstraState

-- `dist.get(node).unwrap_or(&u64::MAX)`.
abbrev pub or_max : Option ℕ → ℕ
or_max none = max_cost
or_max (some d) = d

abbrev pub dist_of : Bytes → Search → ℕ
dist_of node s = or_max (lookup node s.dist)

-- One round of the loop over the edges.
unfoldable pub relax : Bytes → ℕ → Edge → Search → Search
relax node cost (from, to, rtt) s =
    let new_cost = saturating_add cost (as_micros rtt % 2 ^ 64) in
    if bytes_eq from node && ltb new_cost (dist_of to s)
    then record {
      dist = insert to new_cost s.dist;
      prev = insert to node s.prev;
      heap = (new_cost, to) ∷ s.heap;
    }
    else s

unfoldable pub relax_all : Bytes → ℕ → List Edge → Search → Search
relax_all node cost [] s = s
relax_all node cost (e ∷ edges) s = relax_all node cost edges (relax node cost e s)

-- The body of the loop over the heap, behind `pop` and the test for the destination.
unfoldable pub visit : List Edge → DijkstraState → Search → Search
visit edges (cost_us, node) s =
    if ltb (dist_of node s) cost_us then s else relax_all node cost_us edges s

unfoldable pub search : ℕ → List Edge → Bytes → Search → Option Search
search zero edges destination s = none
search (suc fuel) edges destination s = elim (pop s.heap) [
  | none ↦ some s
  | some r ↦
      let s' = record s { heap = r.1 } in
      elim (bytes_eq r.0.1 destination) [
        | true ↦ some s'
        | false ↦ search fuel edges destination (visit edges r.0 s')
      ]
]

abbrev pub all_far : List Bytes → List (Bytes × ℕ)
all_far [] = []
all_far (n ∷ ns) = insert n max_cost (all_far ns)

abbrev pub start : LatencyMatrix → Bytes → ℕ → Search
start m node cost = record {
  dist = insert node cost (all_far (nodes m));
  prev = [];
  heap = (cost, node) ∷ [];
}

-- The walk from the destination to `stop`; the path grows at its front, so that it needs no
-- `reverse`.
unfoldable pub walk_back :
    ℕ → List (Bytes × Bytes) → Bytes → List Bytes → Bytes → Option (Option (List Bytes))
walk_back zero prev stop path current = none
walk_back (suc fuel) prev stop path current = elim (bytes_eq current stop) [
  | true ↦ some (some path)
  | false ↦ elim (lookup current prev) [
    | none ↦ some none
    | some p ↦ walk_back fuel prev stop (p ∷ path) p
  ]
]

abbrev pub total : List (Bytes × ℕ) → ℕ
total [] = 0
total ((n, d) ∷ dist) = d + total dist

-- What each round of the loop makes smaller.
abbrev pub potential : Search → ℕ
potential s = 2 * total s.dist + length s.heap

abbrev pub searched : LatencyMatrix → Bytes → ℕ → Bytes → Option Search
searched m node cost destination =
    let s = start m node cost in search (potential s + 1) (all_edges m) destination s

unfoldable pub dijkstra_from : Bytes → Bytes → Option Search → Option (Option (List Bytes))
dijkstra_from local_node destination none = none
dijkstra_from local_node destination (some s) =
    walk_back (length s.prev + 1) s.prev local_node (destination ∷ []) destination

unfoldable pub dijkstra : LatencyMatrix → Bytes → Bytes → Option (Option (List Bytes))
unfolding dijkstra_from
dijkstra m local_node destination =
    dijkstra_from local_node destination (searched m local_node 0 destination)

abbrev pub or_zero : Option ℕ → ℕ
or_zero none = 0
or_zero (some rtt) = rtt

-- The sum over `path.windows(2)`.
unfoldable pub path_cost : LatencyMatrix → List Bytes → ℕ
path_cost m [] = 0
path_cost m (a ∷ []) = 0
path_cost m (a ∷ b ∷ path) = or_zero (get_rtt m a b) + path_cost m (b ∷ path)

abbrev pub route_of : LatencyMatrix → List Bytes → Option RouteEntry
route_of m (a ∷ b ∷ path) =
    some (record { next_hop_node = b; total_rtt = path_cost m (a ∷ b ∷ path); path = a ∷ b ∷ path })
route_of m _ = none

abbrev pub routed : LatencyMatrix → Option (Option (List Bytes)) → Option (Option RouteEntry)
routed m none = none
routed m (some none) = some none
routed m (some (some path)) = some (route_of m path)

unfoldable pub next_hop : LatencyMatrix → Bytes → Bytes → Option (Option RouteEntry)
next_hop m local_node destination =
    if bytes_eq destination local_node
    then some none
    else routed m (dijkstra m local_node destination)

abbrev pub joined : Option (Option RouteEntry) → Option RouteEntry
joined none = none
joined (some o) = o

-- `next_hop` as its callers see it, which never meet the end of the fuel.
unfoldable pub route_from : Bytes → LatencyMatrix → Bytes → Option RouteEntry
route_from local_node m destination = joined (next_hop m local_node destination)

abbrev pub last_cost : Bytes → Search → ℕ
last_cost destination s = from_micros (dist_of destination s)

via_path : Bytes → Bytes → ℕ → Option (Option (List Bytes)) → Option (Option RouteEntry)
via_path local_node via total none = none
via_path local_node via total (some none) = some none
via_path local_node via total (some (some path)) =
    some (some (record { next_hop_node = via; total_rtt = total; path = local_node ∷ path }))

via_search : Bytes → Bytes → Bytes → Option Search → Option (Option RouteEntry)
unfolding via_path
via_search local_node via destination none = none
via_search local_node via destination (some s) =
    let walked = walk_back (length s.prev + 1) s.prev via (destination ∷ []) destination in
    if not (is_some (lookup destination s.prev)) && not (bytes_eq via destination)
    then some none
    else via_path local_node via (last_cost destination s) walked

pub via_rtt : LatencyMatrix → Bytes → Bytes → Bytes → Option ℕ → Option (Option RouteEntry)
unfolding via_search
via_rtt m local_node via destination none = some none
via_rtt m local_node via destination (some rtt) =
    via_search local_node via destination (searched m via (as_micros rtt % 2 ^ 64) destination)

unfoldable pub dijkstra_via : LatencyMatrix → Bytes → Bytes → Bytes → Option (Option RouteEntry)
unfolding via_rtt
dijkstra_via m local_node via destination =
    via_rtt m local_node via destination (get_rtt m local_node via)

-- The set of nodes to which an edge leads from the local node.
abbrev pub neighbors : Bytes → List Edge → List Bytes
neighbors local_node [] = []
neighbors local_node ((from, to, rtt) ∷ edges) =
    let rest = neighbors local_node edges in
    if bytes_eq from local_node then add_name to rest else rest

-- `sort_by_key`, which is stable.
abbrev pub insert_route : RouteEntry → List RouteEntry → List RouteEntry
insert_route r [] = r ∷ []
insert_route r (q ∷ qs) =
    let rest = insert_route r qs in if leb r.total_rtt q.total_rtt then r ∷ q ∷ qs else q ∷ rest

abbrev pub add_route :
    Option (Option RouteEntry) → Option (List RouteEntry) → Option (List RouteEntry)
add_route none rs = none
add_route (some r) none = none
add_route (some none) (some rs) = some rs
add_route (some (some r)) (some rs) = some (insert_route r rs)

unfoldable pub routes_via : LatencyMatrix → Bytes → Bytes → List Bytes → Option (List RouteEntry)
routes_via m local_node destination [] = some []
routes_via m local_node destination (n ∷ ns) =
    add_route (dijkstra_via m local_node n destination) (routes_via m local_node destination ns)

abbrev pub truncated_to : ℕ → Option (List RouteEntry) → Option (List RouteEntry)
truncated_to n none = none
truncated_to n (some rs) = some (take n rs)

unfoldable pub top_paths : LatencyMatrix → Bytes → Bytes → ℕ → Option (List RouteEntry)
top_paths m local_node destination n =
    let routes = routes_via m local_node destination (neighbors local_node (all_edges m)) in
    if bytes_eq destination local_node then some [] else truncated_to n routes
