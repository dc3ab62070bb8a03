-- ===== src/Mesh/Router/Sorted.antt =====
-- src/mesh/router.rs, `top_paths`: which routes are given, in which order, and how many.
use mathlib.Core.Bool.{false≢true}
use mathlib.Core.List.{Memᴰ}
use mathlib.Core.List.Memᴰ.{head, tail, append_left, append_right}
use entrouter_line.Base.{
  ℕ, zero, suc, ◌≤◌, ◌≡◌, refl, inl, inr, List, [], ◌∷◌, Option, none, some, Bytes, bytes_eq,
  bytes_eq_iff, leb, leb→le, All, All-take, Bool-cases, Option-cases, true, false, lookup, pair_eq,
  ◌≢◌, ◌&&◌, ◌||◌, if◌then◌else◌, ◌⊎◌, sym, ap, ◌∙◌, some-injective, none≢some, ◌≡◌, length,
  length-take, take, arith,
}
use entrouter_line.Mesh.LatencyMatrix.{
  LatencyMatrix, all_edges, get_rtt, rtt_of, contains, add_name,
}
use entrouter_line.Mesh.Router.{
  RouteEntry, insert_route, add_route, dijkstra_via, routes_via, neighbors, top_paths, via_rtt,
}
use entrouter_line.Mesh.Router.Decided.{via_rtt-decided}

abbrev pub IsSorted : List RouteEntry → Type 0
IsSorted [] = Unit {0}
IsSorted (r ∷ rs) = All (λ q. r.total_rtt ≤ q.total_rtt) rs × IsSorted rs

All-le :
    (a b : ℕ) (rs : List RouteEntry)
    → a ≤ b
    → All (λ q. b ≤ q.total_rtt) rs
    → All (λ q. a ≤ q.total_rtt) rs
All-le a b [] h ps = tt
All-le a b (r ∷ rs) h (p, ps) = (omega arith, All-le a b rs h ps)

All-insert_route :
    (a : ℕ) (r : RouteEntry) (rs : List RouteEntry)
    → a ≤ r.total_rtt
    → All (λ q. a ≤ q.total_rtt) rs
    → All (λ q. a ≤ q.total_rtt) (insert_route r rs)
All-insert_route a r [] h ps = (h, tt)
All-insert_route a r (q ∷ qs) h (p, ps) = elim (Bool-cases (leb r.total_rtt q.total_rtt)) [
  | inl first ↦ rw first (h, (p, ps))
  | inr later ↦ rw later (p, All-insert_route a r qs h ps)
]

insert_route-IsSorted :
    (r : RouteEntry) (rs : List RouteEntry) → IsSorted rs → IsSorted (insert_route r rs)
insert_route-IsSorted r [] s = (tt, tt)
insert_route-IsSorted r (q ∷ qs) (least, s) = elim (Bool-cases (leb r.total_rtt q.total_rtt)) [
  | inl first ↦
      let le = leb→le r.total_rtt q.total_rtt first in
      rw first ((le, All-le r.total_rtt q.total_rtt qs le least), (least, s))
  | inr later ↦
      let le : q.total_rtt ≤ r.total_rtt = ground (arith, later) in
      rw later (All-insert_route q.total_rtt r qs le least, insert_route-IsSorted r qs s)
]

take-IsSorted : (n : ℕ) (rs : List RouteEntry) → IsSorted rs → IsSorted (take n rs)
take-IsSorted zero rs s = tt
take-IsSorted (suc n) [] s = tt
take-IsSorted (suc n) (r ∷ rs) (least, s) =
    (All-take (λ q. r.total_rtt ≤ q.total_rtt) n rs least, take-IsSorted n rs s)

-- What stands first in a sorted list is as fast as what is cut off.
unfoldable pub IsCut : ℕ → RouteEntry → List RouteEntry → Type 0
IsCut n r rs = (length rs ≡ n) × All (λ q. q.total_rtt ≤ r.total_rtt) rs

All-Memᴰ :
    (a : ℕ) (r : RouteEntry) (rs : List RouteEntry)
    → All (λ q. a ≤ q.total_rtt) rs
    → Memᴰ r rs
    → a ≤ r.total_rtt
All-Memᴰ a r [] ps m = elim m [ ]
All-Memᴰ a r (q ∷ rs) (p, ps) (head e) = rw e p
All-Memᴰ a r (q ∷ rs) (p, ps) (tail m) = All-Memᴰ a r rs ps m

Memᴰ-take :
    (n : ℕ) (r : RouteEntry) (rs : List RouteEntry)
    → IsSorted rs
    → Memᴰ r rs
    → Memᴰ r (take n rs) ⊎ IsCut n r (take n rs)
unfolding IsCut
Memᴰ-take zero r rs s m = inr (refl, tt)
Memᴰ-take (suc n) r [] s m = elim m [ ]
Memᴰ-take (suc n) r (q ∷ rs) (least, s) (head e) = inl (head e)
Memᴰ-take (suc n) r (q ∷ rs) (least, s) (tail m) = elim (Memᴰ-take n r rs s m) [
  | inl kept ↦ inl (tail kept)
  | inr (full, faster) ↦ inr (ap suc full, (All-Memᴰ q.total_rtt r rs least m, faster))
]

Memᴰ-insert_route :
    (p r : RouteEntry) (rs : List RouteEntry) → Memᴰ p (r ∷ rs) → Memᴰ p (insert_route r rs)
Memᴰ-insert_route p r [] m = m
Memᴰ-insert_route p r (q ∷ qs) m = elim (Bool-cases (leb r.total_rtt q.total_rtt)) [
  | inl first ↦ rw first m
  | inr later ↦ rw later (beyond (λ n. Memᴰ-insert_route p r qs n) m)
]
  where
    beyond :
        (Memᴰ p (r ∷ qs) → Memᴰ p (insert_route r qs))
        → Memᴰ p (r ∷ q ∷ qs)
        → Memᴰ p (q ∷ insert_route r qs)
    beyond rest (head e) = tail (rest (head e))
    beyond rest (tail (head e)) = head e
    beyond rest (tail (tail m)) = tail (rest (tail m))

module _ (m : LatencyMatrix) (local_node destination : Bytes) where
  dijkstra_via-decided :
      (via : Bytes) → (o : Option RouteEntry) × (dijkstra_via m local_node via destination ≡ some o)
  unfolding dijkstra_via
  dijkstra_via-decided via = via_rtt-decided m local_node via destination (get_rtt m local_node via)

  -- A route that the search through some node finds.
  abbrev pub IsFound : RouteEntry → Type 0
  IsFound r = (via : Bytes) × (dijkstra_via m local_node via destination ≡ some (some r))

  insert_route-IsFound :
      (r : RouteEntry) (rs : List RouteEntry)
      → IsFound r
      → All IsFound rs
      → All IsFound (insert_route r rs)
  insert_route-IsFound r [] f fs = (f, tt)
  insert_route-IsFound r (q ∷ qs) f (g, gs) = elim (Bool-cases (leb r.total_rtt q.total_rtt)) [
    | inl first ↦ rw first (f, (g, gs))
    | inr later ↦ rw later (g, insert_route-IsFound r qs f gs)
  ]

  -- What the searches through the nodes of a list find, and all of it.
  record AreRoutes (ns : List Bytes) (rs : List RouteEntry) : Type 0 where
    sorted : IsSorted rs
    each : All IsFound rs
    all :
        (via : Bytes) (r : RouteEntry)
        → Memᴰ via ns
        → dijkstra_via m local_node via destination ≡ some (some r)
        → Memᴰ r rs

  add_route-AreRoutes :
      (n : Bytes) (ns : List Bytes) (o : Option RouteEntry) (rs : List RouteEntry)
      → dijkstra_via m local_node n destination ≡ some o
      → AreRoutes ns rs
      → (qs : List RouteEntry) × (add_route (some o) (some rs) ≡ some qs) × AreRoutes (n ∷ ns) qs
  add_route-AreRoutes n ns none rs e h = (
    rs,
    refl,
    record {
      sorted = h.sorted;
      each = h.each;
      all = λ via r among f. elim among [
        | head same ↦ absurd (
            none≢some (
              some-injective
                (sym e ∙ ap (λ v. dijkstra_via m local_node v destination) (sym same) ∙ f)))
        | tail later ↦ h.all via r later f
      ];
    },
  )
  add_route-AreRoutes n ns (some q) rs e h = (
    insert_route q rs,
    refl,
    record {
      sorted = insert_route-IsSorted q rs h.sorted;
      each = insert_route-IsFound q rs (n, e) h.each;
      all = λ via r among f. elim among [
        | head same ↦ Memᴰ-insert_route r q rs (
            head (
              some-injective (
                some-injective
                  (sym f ∙ ap (λ v. dijkstra_via m local_node v destination) same ∙ e))))
        | tail later ↦ Memᴰ-insert_route r q rs (tail (h.all via r later f))
      ];
    },
  )

  routes_via-AreRoutes :
      (ns : List Bytes)
      → (rs : List RouteEntry) × (routes_via m local_node destination ns ≡ some rs)
        × AreRoutes ns rs
  unfolding routes_via
  routes_via-AreRoutes [] =
      ([], refl, record { sorted = tt; each = tt; all = λ via r among f. elim among [ ] })
  routes_via-AreRoutes (n ∷ ns) =
      let (rs, rest, h) = routes_via-AreRoutes ns in
      let (o, one) = dijkstra_via-decided n in
      let (qs, both, h') = add_route-AreRoutes n ns o rs one h in (qs, rw (one, rest) both, h')

Memᴰ-add_name : (n : Bytes) (xs : List Bytes) → Memᴰ n (add_name n xs)
Memᴰ-add_name n xs = elim (Bool-cases (contains n xs)) [
  | inl old ↦ rw old (at n xs old)
  | inr new ↦ rw new (append_right xs (head refl))
]
  where
    at : (n : Bytes) (xs : List Bytes) → contains n xs ≡ true → Memᴰ n xs
    at n (x ∷ xs) e = elim (Bool-cases (bytes_eq x n)) [
      | inl same ↦ head (sym ((bytes_eq_iff x n).0 same))
      | inr other ↦ tail (at n xs (sym (ap (λ t. t || contains n xs) other) ∙ e))
    ]
    at n [] e = absurd (false≢true e)

add_name-Memᴰ : (n k : Bytes) (xs : List Bytes) → Memᴰ n xs → Memᴰ n (add_name k xs)
add_name-Memᴰ n k xs m = elim (Bool-cases (contains k xs)) [
  | inl old ↦ rw old m
  | inr new ↦ rw new (append_left (k ∷ []) m)
]

-- What has a round-trip time from the local node is its neighbor.
neighbors-Memᴰ :
    (local_node via : Bytes) (rtt : ℕ) (m : LatencyMatrix)
    → get_rtt m local_node via ≡ some rtt
    → Memᴰ via (neighbors local_node (all_edges m))
unfolding all_edges
neighbors-Memᴰ local_node via rtt [] e = absurd (none≢some e)
neighbors-Memᴰ local_node via rtt (((from, to), x) ∷ m) e =
    elim (Bool-cases (bytes_eq from local_node)) [
      | inl mine ↦ elim (Bool-cases (bytes_eq to via)) [
        | inl here ↦
            rw (mine, (bytes_eq_iff to via).0 here)
              (Memᴰ-add_name via (neighbors local_node (all_edges m)))
        | inr there ↦ rw mine (
            add_name-Memᴰ via to (neighbors local_node (all_edges m)) (
              neighbors-Memᴰ local_node via rtt m (
                sym (
                  ap (λ t. rtt_of (if t then some x else lookup (local_node, via) m))
                    (ap (λ t. bytes_eq from local_node && t) there ∙ ap (λ t. t && false) mine))
                ∙ e)))
      ]
      | inr other ↦ rw other (
          neighbors-Memᴰ local_node via rtt m (
            sym (
              ap (λ t. rtt_of (if t && bytes_eq to via then some x else lookup (local_node, via) m))
                other)
            ∙ e))
    ]

-- `top_paths` always returns, and gives no route to the local node itself. To another node it gives at
-- most `n` routes, the fastest first, and each is what the search through some node finds. Any route
-- that the search through a node finds is among them, unless it gives `n` routes that are all as fast.
pub top_paths-IsSorted :
    (m : LatencyMatrix) (local_node destination : Bytes) (n : ℕ)
    → destination ≢ local_node
    → (rs : List RouteEntry) × (top_paths m local_node destination n ≡ some rs)
      × IsSorted rs
      × (length rs ≤ n)
      × All (IsFound m local_node destination) rs
      × ((via : Bytes) (r : RouteEntry)
          → dijkstra_via m local_node via destination ≡ some (some r)
          → Memᴰ r rs ⊎ IsCut n r rs)
      × (top_paths m local_node local_node n ≡ some [])
unfolding top_paths dijkstra_via
top_paths-IsSorted m local_node destination n away =
    let (rs, routes, h) =
      routes_via-AreRoutes m local_node destination (neighbors local_node (all_edges m)) in
    let elsewhere : bytes_eq destination local_node ≡ false =
      elim (Bool-cases (bytes_eq destination local_node)) [
        | inl same ↦ absurd (away ((bytes_eq_iff destination local_node).0 same))
        | inr other ↦ other
      ] in
    (
      take n rs,
      rw (elsewhere, routes) refl,
      take-IsSorted n rs h.sorted,
      omega (arith, length-take n rs),
      All-take (IsFound m local_node destination) n rs h.each,
      λ via r f. Memᴰ-take n r rs h.sorted (elim (Option-cases (get_rtt m local_node via)) [
        | inl missing ↦ absurd (
            none≢some
              (some-injective (sym (ap (via_rtt m local_node via destination) missing) ∙ f)))
        | inr (rtt, there) ↦ h.all via r (neighbors-Memᴰ local_node via rtt m there) f
      ]),
      rw ((bytes_eq_iff local_node local_node).1 refl) refl,
    )
