-- ===== src/Mesh/Router/Paths.antt =====
-- src/mesh/router.rs: the routes that are found are paths of the matrix.
use entrouter_line.Base.{
  ℕ, zero, suc, ◌+◌, ◌%◌, ◌^◌, ◌≡◌, refl, sym, ap, ◌∙◌, inl, inr, Bool, true, false, ◌&&◌, List, [],
  ◌∷◌, Option, none, some, Bytes, bytes_eq, bytes_eq_iff, string_eq, pair_eq, lookup, insert,
  lookup-insert, ltb, is_some, if◌then◌else◌, All, Bool-cases, Option-cases, some-injective,
  none≢some, arith, length,
}
use entrouter_line.Mesh.LatencyMatrix.{as_micros, LatencyMatrix, Edge, all_edges, get_rtt}
use entrouter_line.Mesh.Router.{
  potential, saturating_add, dist_of, DijkstraState, pop, Search, relax, relax_all, visit, search,
  start, searched, walk_back, dijkstra_from,
}

-- There is a round-trip time from one node to the other.
abbrev pub Measured : LatencyMatrix → Bytes → Bytes → Type 0
Measured m from to = is_some (get_rtt m from to) ≡ true

-- A list of nodes of which each neighbours have a round-trip time, and which ends at a node.
abbrev pub IsPath : LatencyMatrix → Bytes → List Bytes → Type 0
IsPath m destination [] = ⊥
IsPath m destination (a ∷ []) = a ≡ destination
IsPath m destination (a ∷ b ∷ path) = Measured m a b × IsPath m destination (b ∷ path)

IsMeasured : LatencyMatrix → Edge → Type 0
IsMeasured m (from, to, rtt) = Measured m from to

-- `prev` leads backwards along measured pairs.
Backwards : LatencyMatrix → List (Bytes × Bytes) → Type 0
Backwards m prev = (x p : Bytes) → lookup x prev ≡ some p → Measured m p x

all_edges-IsMeasured :
    (m es : LatencyMatrix)
    → ((a b : Bytes) → is_some (lookup (a, b) es) ≡ true → Measured m a b)
    → All (IsMeasured m) (all_edges es)
unfolding all_edges IsMeasured
all_edges-IsMeasured m [] h = tt
all_edges-IsMeasured m (((from, to), e) ∷ es) h = (
  h from to (ground (arith, bytes_eq_iff from from, bytes_eq_iff to to)),
  all_edges-IsMeasured m es (λ a b t. h a b (ground arith)),
)

insert-Backwards :
    (m : LatencyMatrix) (to node : Bytes) (prev : List (Bytes × Bytes))
    → Measured m node to
    → Backwards m prev
    → Backwards m (insert to node prev)
unfolding Backwards
insert-Backwards m to node prev h b x p e = elim (Bool-cases (bytes_eq to x)) [
  | inl same ↦
      let at : some node ≡ some p =
        sym (ap (λ t. if t then some node else lookup x prev) same)
        ∙ sym (lookup-insert to x node prev)
        ∙ e in
      let to_x = (bytes_eq_iff to x).0 same in rw (sym to_x, sym (some-injective at)) h
  | inr other ↦ b x p (
      sym (ap (λ t. if t then some node else lookup x prev) other)
      ∙ sym (lookup-insert to x node prev)
      ∙ e)
]

&&-left : (a b : Bool) → (a && b) ≡ true → a ≡ true
&&-left true b e = refl
&&-left false b e = e

relax-Backwards :
    (m : LatencyMatrix) (node : Bytes) (cost : ℕ) (e : Edge) (s : Search)
    → IsMeasured m e
    → Backwards m s.prev
    → Backwards m (relax node cost e s).prev
unfolding relax IsMeasured
relax-Backwards m node cost (from, to, rtt) s h b =
    elim (Bool-cases
      (bytes_eq from node && ltb (saturating_add cost (as_micros rtt % 2 ^ 64)) (dist_of to s))) [
        | inl hit ↦
            let same : from ≡ node = (bytes_eq_iff from node).0 (
              &&-left (bytes_eq from node)
                (ltb (saturating_add cost (as_micros rtt % 2 ^ 64)) (dist_of to s)) hit) in
            rw hit (insert-Backwards m to node s.prev (rw (sym same) h) b)
        | inr miss ↦ rw miss b
      ]

relax_all-Backwards :
    (m : LatencyMatrix) (node : Bytes) (cost : ℕ) (edges : List Edge) (s : Search)
    → All (IsMeasured m) edges
    → Backwards m s.prev
    → Backwards m (relax_all node cost edges s).prev
unfolding relax_all
relax_all-Backwards m node cost [] s h b = b
relax_all-Backwards m node cost (e ∷ edges) s (h, hs) b =
    relax_all-Backwards m node cost edges (relax node cost e s) hs
      (relax-Backwards m node cost e s h b)

visit-Backwards :
    (m : LatencyMatrix) (edges : List Edge) (top : DijkstraState) (s : Search)
    → All (IsMeasured m) edges
    → Backwards m s.prev
    → Backwards m (visit edges top s).prev
unfolding visit
visit-Backwards m edges (cost, node) s h b = elim (Bool-cases (ltb (dist_of node s) cost)) [
  | inl stale ↦ rw stale b
  | inr fresh ↦ rw fresh (relax_all-Backwards m node cost edges s h b)
]

search-Backwards :
    (m : LatencyMatrix) (fuel : ℕ) (edges : List Edge) (destination : Bytes) (s u : Search)
    → All (IsMeasured m) edges
    → Backwards m s.prev
    → search fuel edges destination s ≡ some u
    → Backwards m u.prev
unfolding search
search-Backwards m zero edges destination s u h b e = absurd (cc)
search-Backwards m (suc fuel) edges destination s u h b e = elim (Option-cases (pop s.heap)) [
  | inl empty ↦
      let run : search (suc fuel) edges destination s ≡ some s = rw (empty, search) in
      rw (some-injective (sym e ∙ run)) b
  | inr (r, popped) ↦ elim (Bool-cases (bytes_eq r.0.1 destination)) [
    | inl there ↦
        let run : search (suc fuel) edges destination s ≡ some (record s { heap = r.1 }) =
          rw (popped, search, there) in
        rw (some-injective (sym e ∙ run)) b
    | inr on ↦
        let s' : Search = record s { heap = r.1 } in
        let run : search (suc fuel) edges destination s
            ≡ search fuel edges destination (visit edges r.0 s') =
          rw (popped, search, on) in
        search-Backwards m fuel edges destination (visit edges r.0 s') u h
          (visit-Backwards m edges r.0 s' h b) (sym run ∙ e)
  ]
]

walk_back-IsPath :
    (m : LatencyMatrix) (fuel : ℕ) (prev : List (Bytes × Bytes)) (stop destination current : Bytes)
    (path q : List Bytes)
    → Backwards m prev
    → IsPath m destination (current ∷ path)
    → walk_back fuel prev stop (current ∷ path) current ≡ some (some q)
    → (p : List Bytes) × (q ≡ stop ∷ p) × IsPath m destination q
unfolding walk_back Backwards
walk_back-IsPath m zero prev stop destination current path q b h e = absurd (cc)
walk_back-IsPath m (suc fuel) prev stop destination current path q b h e =
    elim (Bool-cases (bytes_eq current stop)) [
      | inl there ↦
          let run : walk_back (suc fuel) prev stop (current ∷ path) current
              ≡ some (some (current ∷ path)) =
            rw (there, walk_back) in
          let same = some-injective (some-injective (sym run ∙ e)) in
          (
            path,
            sym same ∙ ap (λ x. x ∷ path) ((bytes_eq_iff current stop).0 there),
            rw (sym same) h,
          )
      | inr on ↦ elim (Option-cases (lookup current prev)) [
        | inl none' ↦
            let run : walk_back (suc fuel) prev stop (current ∷ path) current ≡ some none =
              rw (on, walk_back, none') in
            absurd (none≢some (some-injective (sym run ∙ e)))
        | inr (p, found) ↦
            let run : walk_back (suc fuel) prev stop (current ∷ path) current
                ≡ walk_back fuel prev stop (p ∷ current ∷ path) p =
              rw (on, walk_back, found) in
            walk_back-IsPath m fuel prev stop destination p (current ∷ path) q b
              (b current p found, h) (sym run ∙ e)
      ]
    ]

none-Backwards : (m : LatencyMatrix) → Backwards m []
unfolding Backwards
none-Backwards m x p e = absurd (cc)

pub dijkstra_from-IsPath :
    (m : LatencyMatrix) (local_node destination : Bytes) (q : List Bytes) (o : Option Search)
    → o ≡ searched m local_node 0 destination
    → dijkstra_from local_node destination o ≡ some (some q)
    → (p : List Bytes) × (q ≡ local_node ∷ p) × IsPath m destination q
unfolding dijkstra_from
dijkstra_from-IsPath m local_node destination q none o e = absurd (cc)
dijkstra_from-IsPath m local_node destination q (some s) o e =
    let first = start m local_node 0 in
    walk_back-IsPath m (length s.prev + 1) s.prev local_node destination destination [] q
      (search-Backwards m (potential first + 1) (all_edges m) destination first s
        (all_edges-IsMeasured m m (λ a b t. ground (arith, t))) (none-Backwards m) (sym o))
      refl e
