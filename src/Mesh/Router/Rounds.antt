-- ===== src/Mesh/Router/Rounds.antt =====
-- src/mesh/router.rs: the loop over the heap ends.
use entrouter_line.Base.{
  ℕ, zero, suc, ◌+◌, ◌%◌, ◌^◌, ◌≤◌, ◌<◌, ◌≡◌, refl, sym, ap, ◌∙◌, inl, inr, Bool, true, false, ◌&&◌,
  ◌||◌, List, [], ◌∷◌, ◌++◌, some, some-injective, Bytes, bytes_eq, bytes_eq_iff, string_eq, lookup,
  insert, lookup-insert, ltb, ltb→lt, leb, is_some, if◌then◌else◌, All, Bool-cases, Option-cases,
  length, arith,
}
use mathlib.Core.Bool.{false≢true}
use entrouter_line.Mesh.LatencyMatrix.{
  LatencyMatrix, Edge, all_edges, contains, add_name, collect_nodes, nodes, as_micros,
}
use entrouter_line.Mesh.Router.{
  max_cost, DijkstraState, pop_min, pop, Search, saturating_add, or_max, dist_of, relax, relax_all,
  visit, search, start, total, potential, all_far, searched,
}

-- A node has a distance.
abbrev pub HasDist : List (Bytes × ℕ) → Bytes → Type 0
HasDist dist n = is_some (lookup n dist) ≡ true

Known : List (Bytes × ℕ) → Edge → Type 0
Known dist (from, to, rtt) = HasDist dist to

total-insert :
    (k : Bytes) (v d : ℕ) (dist : List (Bytes × ℕ))
    → lookup k dist ≡ some d
    → total (insert k v dist) + d ≡ total dist + v
total-insert k v d [] h = absurd (cc)
total-insert k v d ((j, e) ∷ dist) h = elim (Bool-cases (bytes_eq j k)) [
  | inl same ↦
      let at : some e ≡ some d = sym (ap (λ t. if t then some e else lookup k dist) same) ∙ h in
      rw same (omega (arith, some-injective at))
  | inr other ↦
      let rest : lookup k dist ≡ some d =
        sym (ap (λ t. if t then some e else lookup k dist) other) ∙ h in
      rw other (omega (arith, total-insert k v d dist rest))
]

insert-HasDist :
    (k j : Bytes) (v : ℕ) (dist : List (Bytes × ℕ)) → HasDist dist j → HasDist (insert k v dist) j
insert-HasDist k j v dist h = ground (arith, lookup-insert k j v dist)

insert-HasDist_self : (k : Bytes) (v : ℕ) (dist : List (Bytes × ℕ)) → HasDist (insert k v dist) k
insert-HasDist_self k v dist = ground (arith, lookup-insert k k v dist, bytes_eq_iff k k)

HasDist-some :
    (dist : List (Bytes × ℕ)) (n : Bytes) → HasDist dist n → (d : ℕ) × (lookup n dist ≡ some d)
HasDist-some dist n h = elim (Option-cases (lookup n dist)) [
  | inl none' ↦ absurd (false≢true (sym (ap is_some none') ∙ h))
  | inr found ↦ found
]

&&-right : (a b : Bool) → (a && b) ≡ true → b ≡ true
&&-right true b e = e
&&-right false b e = absurd (cc)

relax-potential :
    (node : Bytes) (cost : ℕ) (e : Edge) (s : Search)
    → Known s.dist e
    → (potential (relax node cost e s) ≤ potential s)
      × ((j : Bytes) → HasDist s.dist j → HasDist (relax node cost e s).dist j)
unfolding relax Known
relax-potential node cost (from, to, rtt) s k =
    let new_cost = saturating_add cost (as_micros rtt % 2 ^ 64) in
    elim (Bool-cases (bytes_eq from node && ltb new_cost (dist_of to s))) [
      | inl hit ↦
          let (d, at) = HasDist-some s.dist to k in
          let far : dist_of to s ≡ d = ap or_max at in
          let less =
            ltb→lt new_cost (dist_of to s)
              (&&-right (bytes_eq from node) (ltb new_cost (dist_of to s)) hit) in
          (
            rw hit (omega (arith, total-insert to new_cost d s.dist at, far, less)),
            λ j h. rw hit (insert-HasDist to j new_cost s.dist h),
          )
      | inr miss ↦ (rw miss (omega arith), λ j h. rw miss h)
    ]

-- The targets of edges stay known.
All-Known :
    (before after : List (Bytes × ℕ)) (edges : List Edge)
    → ((j : Bytes) → HasDist before j → HasDist after j)
    → All (Known before) edges
    → All (Known after) edges
unfolding Known
All-Known before after [] keep h = tt
All-Known before after ((from, to, rtt) ∷ edges) keep (k, ks) =
    (keep to k, All-Known before after edges keep ks)

relax_all-potential :
    (node : Bytes) (cost : ℕ) (edges : List Edge) (s : Search)
    → All (Known s.dist) edges
    → (potential (relax_all node cost edges s) ≤ potential s)
      × ((j : Bytes) → HasDist s.dist j → HasDist (relax_all node cost edges s).dist j)
unfolding relax_all
relax_all-potential node cost [] s ks = (omega arith, λ j h. h)
relax_all-potential node cost (e ∷ edges) s (k, ks) =
    let s' = relax node cost e s in
    let (less, keep) = relax-potential node cost e s k in
    let (less', keep') =
      relax_all-potential node cost edges s' (All-Known s.dist s'.dist edges keep ks) in
    (omega (arith, less, less'), λ j h. keep' j (keep j h))

visit-potential :
    (edges : List Edge) (top : DijkstraState) (s : Search)
    → All (Known s.dist) edges
    → (potential (visit edges top s) ≤ potential s)
      × ((j : Bytes) → HasDist s.dist j → HasDist (visit edges top s).dist j)
unfolding visit
visit-potential edges (cost, node) s ks = elim (Bool-cases (ltb (dist_of node s) cost)) [
  | inl stale ↦ (rw stale (omega arith), λ j h. rw stale h)
  | inr fresh ↦
      let (less, keep) = relax_all-potential node cost edges s ks in
      (rw fresh less, λ j h. rw fresh (keep j h))
]

length-pop_min : (s : DijkstraState) (ss : List DijkstraState) → length (pop_min s ss).1 ≡ length ss
length-pop_min s [] = refl
length-pop_min s (t ∷ ts) =
    let rest = length-pop_min (if leb s.0 t.0 then s else t) ts in omega (arith, rest)

length-pop :
    (heap : List DijkstraState) (r : DijkstraState × List DijkstraState)
    → pop heap ≡ some r
    → length heap ≡ length r.1 + 1
length-pop [] r e = absurd (cc)
length-pop (s ∷ ss) r e =
    let same = some-injective e in
    omega
      (arith, length-pop_min s ss, ap (λ (q : DijkstraState × List DijkstraState). length q.1) same)

-- Each round makes the potential smaller, so that fuel above it is enough.
search-ends :
    (fuel : ℕ) (edges : List Edge) (destination : Bytes) (s : Search)
    → potential s < fuel
    → All (Known s.dist) edges
    → (u : Search) × (search fuel edges destination s ≡ some u)
unfolding search
search-ends zero edges destination s enough ks = absurd (omega arith)
search-ends (suc fuel) edges destination s enough ks = elim (Option-cases (pop s.heap)) [
  | inl empty ↦ (s, rw (empty, search))
  | inr (r, popped) ↦
      let s' : Search = record s { heap = r.1 } in
      elim (Bool-cases (bytes_eq r.0.1 destination)) [
        | inl there ↦ (s', rw (popped, search, there))
        | inr on ↦
            let (less, keep) = visit-potential edges r.0 s' ks in
            let next = visit edges r.0 s' in
            let size = length-pop s.heap r popped in
            let (u, run) =
              search-ends fuel edges destination next (omega (arith, less, size))
                (All-Known s'.dist next.dist edges keep ks) in
            let step : search (suc fuel) edges destination s ≡ search fuel edges destination next =
              rw (popped, search, on) in
            (u, step ∙ run)
      ]
]

abbrev Has : Bytes → List Bytes → Type 0
Has n xs = contains n xs ≡ true

Has-append : (n : Bytes) (xs ys : List Bytes) → Has n xs → Has n (xs ++ ys)
Has-append n [] ys h = absurd (false≢true h)
Has-append n (x ∷ xs) ys h = elim (Bool-cases (bytes_eq x n)) [
  | inl here ↦ rw here refl
  | inr later ↦
      let there : Has n xs = sym (ap (λ b. b || contains n xs) later) ∙ h in
      rw later (Has-append n xs ys there)
]

Has-last : (n : Bytes) (xs : List Bytes) → Has n (xs ++ n ∷ [])
Has-last n [] = ap (λ b. b || false) ((bytes_eq_iff n n).1 refl)
Has-last n (x ∷ xs) = elim (Bool-cases (bytes_eq x n)) [
  | inl here ↦ rw here refl
  | inr later ↦ rw later (Has-last n xs)
]

Has-add_name : (n j : Bytes) (xs : List Bytes) → Has j xs → Has j (add_name n xs)
Has-add_name n j xs h = elim (Bool-cases (contains n xs)) [
  | inl old ↦ rw old h
  | inr new' ↦ rw new' (Has-append j xs (n ∷ []) h)
]

Has-add_name_self : (n : Bytes) (xs : List Bytes) → Has n (add_name n xs)
Has-add_name_self n xs = elim (Bool-cases (contains n xs)) [
  | inl old ↦ rw old old
  | inr new' ↦ rw new' (Has-last n xs)
]

collect_nodes-Has :
    (m : LatencyMatrix) (seen : List Bytes) (j : Bytes) → Has j seen → Has j (collect_nodes seen m)
unfolding collect_nodes
collect_nodes-Has [] seen j h = h
collect_nodes-Has (((from, to), e) ∷ m) seen j h =
    collect_nodes-Has m (add_name to (add_name from seen)) j
      (Has-add_name to j (add_name from seen) (Has-add_name from j seen h))

all_far-HasDist : (n : Bytes) (ns : List Bytes) → Has n ns → HasDist (all_far ns) n
all_far-HasDist n [] h = absurd (false≢true h)
all_far-HasDist n (x ∷ ns) h = elim (Bool-cases (bytes_eq x n)) [
  | inl here ↦
      let same : x ≡ n = (bytes_eq_iff x n).0 here in
      rw (sym same) (insert-HasDist_self x max_cost (all_far ns))
  | inr later ↦
      let there : Has n ns = sym (ap (λ b. b || contains n ns) later) ∙ h in
      insert-HasDist x n max_cost (all_far ns) (all_far-HasDist n ns there)
]

all_edges-Known :
    (m : LatencyMatrix) (seen : List Bytes) (dist : List (Bytes × ℕ))
    → ((j : Bytes) → Has j (collect_nodes seen m) → HasDist dist j)
    → All (Known dist) (all_edges m)
unfolding all_edges collect_nodes Known
all_edges-Known [] seen dist h = tt
all_edges-Known (((from, to), e) ∷ m) seen dist h =
    let seen' = add_name to (add_name from seen) in
    (
      h to (collect_nodes-Has m seen' to (Has-add_name_self to (add_name from seen))),
      all_edges-Known m seen' dist h,
    )

-- The search for a route always ends, from any node and cost, with the fuel that it is given.
pub searched-ends :
    (m : LatencyMatrix) (node destination : Bytes) (cost : ℕ)
    → (u : Search) × (searched m node cost destination ≡ some u)
searched-ends m node destination cost =
    let s = start m node cost in
    search-ends (potential s + 1) (all_edges m) destination s (omega arith) (
      all_edges-Known m [] s.dist
        (λ j h. insert-HasDist node j cost (all_far (nodes m)) (all_far-HasDist j (nodes m) h)))
