-- ===== src/Mesh/Router/Tests.antt =====
-- Runs of src/mesh/router.rs, and its theorems at inputs.
use mathlib.Core.List.{Memᴰ}
use entrouter_line.Base.{
  All, ◌⊎◌, ◌≤◌, arith, length, Option, ◌≡◌, refl, List, [], ◌∷◌, some, Bytes,
}
use entrouter_line.Mesh.LatencyMatrix.{LatencyMatrix, update, entry_after, all_edges, collect_nodes}
use entrouter_line.Mesh.LatencyMatrix.Entries.{IsDistinct, no_entries, update-IsDistinct}
use entrouter_line.Mesh.Router.Shortest.{micros_cost, next_hop-least}
use entrouter_line.Mesh.Router.Sorted.{IsSorted, IsFound, IsCut, top_paths-IsSorted}
use entrouter_line.Mesh.Router.Decided.{next_hop-decided}
use entrouter_line.Mesh.Router.Paths.{IsPath}
use entrouter_line.Mesh.Router.{
  RouteEntry, relax, relax_all, visit, search, walk_back, dijkstra_from, dijkstra, path_cost,
  next_hop, dijkstra_via, routes_via, top_paths,
}

abbrev syd : Bytes
syd = 1 ∷ []

abbrev sgp : Bytes
sgp = 2 ∷ []

abbrev lon : Bytes
lon = 3 ∷ []

three_paths : LatencyMatrix
three_paths = update 0 (update 0 (update 0 [] syd sgp 50000) sgp lon 80000) syd lon 200000

-- The test `multi_hop_shortest_path`, in smaller times.
multi_hop_shortest_path :
    next_hop three_paths syd lon
    ≡ some (some (record { next_hop_node = sgp; total_rtt = 130000; path = syd ∷ sgp ∷ lon ∷ [] }))
unfolding three_paths update entry_after all_edges collect_nodes relax relax_all visit search
    walk_back dijkstra_from dijkstra path_cost next_hop
multi_hop_shortest_path = refl

top_paths_returns_all_candidates :
    top_paths three_paths syd lon 5
    ≡ some (
        (record { next_hop_node = sgp; total_rtt = 130000; path = syd ∷ sgp ∷ lon ∷ [] })
        ∷ (record { next_hop_node = lon; total_rtt = 200000; path = syd ∷ lon ∷ [] })
        ∷ [])
unfolding three_paths update entry_after all_edges collect_nodes relax relax_all visit search
    walk_back dijkstra_via routes_via top_paths
top_paths_returns_all_candidates = refl

next_hop-decided_example :
    ((o : Option RouteEntry) × (next_hop three_paths syd lon ≡ some o))
    × ((o : Option RouteEntry) × (dijkstra_via three_paths syd sgp lon ≡ some o))
    × ((rs : List RouteEntry) × (top_paths three_paths syd lon 5 ≡ some rs))
next_hop-decided_example = next_hop-decided three_paths syd lon sgp 5

top_paths-IsSorted_example :
    (rs : List RouteEntry) × (top_paths three_paths syd lon 1 ≡ some rs)
    × IsSorted rs
    × (length rs ≤ 1)
    × All (IsFound three_paths syd lon) rs
    × ((via : Bytes) (r : RouteEntry)
        → dijkstra_via three_paths syd via lon ≡ some (some r)
        → Memᴰ r rs ⊎ IsCut 1 r rs)
    × (top_paths three_paths syd syd 1 ≡ some [])
top_paths-IsSorted_example = top_paths-IsSorted three_paths syd lon 1 (λ e. absurd (cc))

three_paths-IsDistinct : IsDistinct three_paths
unfolding three_paths
three_paths-IsDistinct =
    update-IsDistinct 0 (update 0 (update 0 [] syd sgp 50000) sgp lon 80000) syd lon 200000 (
      update-IsDistinct 0 (update 0 [] syd sgp 50000) sgp lon 80000
        (update-IsDistinct 0 [] syd sgp 50000 no_entries))

next_hop-least_example :
    (r : RouteEntry) × (next_hop three_paths syd lon ≡ some (some r))
    × IsPath three_paths lon r.path
    × (micros_cost three_paths r.path ≤ 200)
unfolding three_paths update entry_after micros_cost
next_hop-least_example =
    next_hop-least three_paths syd lon (lon ∷ []) three_paths-IsDistinct (λ e. cc e) (refl, refl)
      (omega arith)
