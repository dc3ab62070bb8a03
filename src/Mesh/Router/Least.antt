-- ===== src/Mesh/Router/Least.antt =====
-- src/mesh/router.rs: when the search ends, no path is a short cut to the destination.
use entrouter_line.Base.{
  ℕ, zero, suc, ◌+◌, ◌%◌, ◌^◌, ◌≤◌, ◌≡◌, refl, sym, ap, ◌∙◌, ◌⊎◌, inl, inr, List, [], ◌∷◌, none,
  some, some-injective, none≢some, Bytes, bytes_eq, bytes_eq_iff, string_eq, pair_eq, leb, All,
  All-map, Bool-cases, Option-cases, min, arith,
}
use mathlib.Core.Path.{subst}
use entrouter_line.Mesh.LatencyMatrix.{LatencyMatrix, Edge, as_micros}
use entrouter_line.Mesh.Router.{
  DijkstraState, Search, max_cost, dist_of, visit, pop_min, pop, search,
}
use entrouter_line.Mesh.Router.Rooted.{IsSearch, Queued, All-pop, visit-IsSearch}
use entrouter_line.Mesh.Router.Short.{IsEntry, Waits, Settled, IsShort}
use entrouter_line.Mesh.Router.Settling.{Left, visit-IsShort}

-- What is popped is the least, and nothing else leaves the heap.
IsAbove : ℕ → DijkstraState → Type 0
IsAbove c (cost, node) = c ≤ cost

pop_min-IsAbove :
    (c : ℕ) (s : DijkstraState) (ts : List DijkstraState)
    → c ≡ (pop_min s ts).0.0
    → (c ≤ s.0) × All (IsAbove c) ts
unfolding IsAbove
pop_min-IsAbove c s [] e = (omega (arith, e), tt)
pop_min-IsAbove c s (t ∷ ts) e = elim (Bool-cases (leb s.0 t.0)) [
  | inl keep ↦
      let run : (pop_min s (t ∷ ts)).0.0 ≡ (pop_min s ts).0.0 = rw keep refl in
      let (least, rest) = pop_min-IsAbove c s ts (e ∙ run) in
      (least, (ground (arith, keep, least), rest))
  | inr swap ↦
      let run : (pop_min s (t ∷ ts)).0.0 ≡ (pop_min t ts).0.0 = rw swap refl in
      let (least, rest) = pop_min-IsAbove c t ts (e ∙ run) in
      (ground (arith, swap, least), (least, rest))
]

Waits-pop_min :
    (x s : DijkstraState) (ts : List DijkstraState)
    → Waits x (s ∷ ts)
    → ((pop_min s ts).0 ≡ x) ⊎ Waits x (pop_min s ts).1
unfolding Waits
Waits-pop_min x s [] (inl e) = inl e
Waits-pop_min x s [] (inr none') = elim none' [ ]
Waits-pop_min x s (t ∷ ts) h = elim (Bool-cases (leb s.0 t.0)) [
  | inl keep ↦ rw keep (elim h [
    | inl e ↦ elim (Waits-pop_min x s ts (inl e)) [ inl at ↦ inl at | inr later ↦ inr (inr later) ]
    | inr (inl e) ↦ inr (inl e)
    | inr (inr w) ↦ elim (Waits-pop_min x s ts (inr w)) [
      | inl at ↦ inl at
      | inr later ↦ inr (inr later)
    ]
  ])
  | inr swap ↦ rw swap (elim h [
    | inl e ↦ inr (inl e)
    | inr w ↦ elim (Waits-pop_min x t ts w) [ inl at ↦ inl at | inr later ↦ inr (inr later) ]
  ])
]

pop-least :
    (heap : List DijkstraState) (r : DijkstraState × List DijkstraState)
    → pop heap ≡ some r
    → All (IsAbove r.0.0) heap × ((x : DijkstraState) → Waits x heap → (r.0 ≡ x) ⊎ Waits x r.1)
unfolding IsAbove
pop-least [] r e = absurd (none≢some e)
pop-least (s ∷ ts) r e =
    let same : pop_min s ts ≡ r = some-injective e in
    let (first, rest) =
      pop_min-IsAbove r.0.0 s ts
        (ap (λ (q : DijkstraState × List DijkstraState). q.0.0) (sym same)) in
    (
      (first, rest),
      λ x w.
          subst (λ (q : DijkstraState × List DijkstraState). (q.0 ≡ x) ⊎ Waits x q.1) same
            (Waits-pop_min x s ts w),
    )

Waits-IsAbove :
    (c d : ℕ) (node : Bytes) (heap : List DijkstraState)
    → All (IsAbove c) heap
    → Waits (d, node) heap
    → c ≤ d
unfolding Waits IsAbove
Waits-IsAbove c d node [] hs w = elim w [ ]
Waits-IsAbove c d node ((cost, n) ∷ heap) (h, hs) (inl e) =
    omega (arith, h, ap (λ (t : DijkstraState). t.0) e)
Waits-IsAbove c d node ((cost, n) ∷ heap) (h, hs) (inr w) = Waits-IsAbove c d node heap hs w

-- The edge starts beyond the bound, or it is no short cut.
unfoldable pub IsFinal : ℕ → Search → Edge → Type 0
IsFinal bound s (from, to, rtt) =
    (bound ≤ dist_of from s) ⊎ (dist_of to s ≤ dist_of from s + as_micros rtt % 2 ^ 64)

Settled-IsFinal :
    (c : ℕ) (s : Search) (e : Edge)
    → All (IsAbove c) s.heap
    → Settled s e
    → IsFinal (min c max_cost) s e
unfolding Settled IsFinal
Settled-IsFinal c s (from, to, rtt) above (inl far) = inl (omega (arith, far))
Settled-IsFinal c s (from, to, rtt) above (inr (inl waits)) =
    inl (omega (arith, Waits-IsAbove c (dist_of from s) from s.heap above waits))
Settled-IsFinal c s (from, to, rtt) above (inr (inr long)) = inr long

Settled-IsFinal_empty : (s : Search) (e : Edge) → s.heap ≡ [] → Settled s e → IsFinal max_cost s e
unfolding Settled IsFinal Waits
Settled-IsFinal_empty s (from, to, rtt) empty (inl far) = inl (omega (arith, far))
Settled-IsFinal_empty s (from, to, rtt) empty (inr (inl waits)) =
    elim (subst (Waits (dist_of from s, from)) empty waits) [ ]
Settled-IsFinal_empty s (from, to, rtt) empty (inr (inr long)) = inr long

Settled-Left :
    (s : Search) (r : DijkstraState × List DijkstraState) (e : Edge)
    → ((x : DijkstraState) → Waits x s.heap → (r.0 ≡ x) ⊎ Waits x r.1)
    → Settled s e
    → Left r.0 (record s { heap = r.1 }) e
unfolding Settled Left
Settled-Left s r (from, to, rtt) kept (inl far) = inl (inl far)
Settled-Left s r (from, to, rtt) kept (inr (inl waits)) = elim (kept (dist_of from s, from) waits) [
  | inl at ↦ inr at
  | inr later ↦ inl (inr (inl later))
]
Settled-Left s r (from, to, rtt) kept (inr (inr long)) = inl (inr (inr long))

pop-empty : (heap : List DijkstraState) → pop heap ≡ none → heap ≡ []
pop-empty [] e = refl
pop-empty (s ∷ ss) e = absurd (none≢some (sym e))

-- What a search leaves, with a bound that the destination is within.
unfoldable pub Ended : LatencyMatrix → Bytes → List Edge → Bytes → Search → Type 0
Ended m stop edges destination u =
    IsShort m stop u × ((bound : ℕ) × (dist_of destination u ≤ bound) × All (IsFinal bound u) edges)

pub search-Ended :
    (m : LatencyMatrix) (stop : Bytes) (fuel : ℕ) (edges : List Edge) (destination : Bytes)
    (s u : Search)
    → All (IsEntry m) edges
    → IsSearch stop s
    → IsShort m stop s
    → All (Settled s) edges
    → search fuel edges destination s ≡ some u
    → Ended m stop edges destination u
unfolding search Ended Queued IsFinal
search-Ended m stop zero edges destination s u entries i short settled e = absurd (none≢some e)
search-Ended m stop (suc fuel) edges destination s u entries i short settled e =
    elim (Option-cases (pop s.heap)) [
      | inl empty ↦
          let run : search (suc fuel) edges destination s ≡ some s = rw (empty, search) in
          subst (Ended m stop edges destination) (some-injective (sym run ∙ e)) (
            short,
            (
              max_cost,
              i.capped destination,
              All-map (Settled s) (IsFinal max_cost s)
                  (λ e. Settled-IsFinal_empty s e (pop-empty s.heap empty)) edges settled,
            ),
          )
      | inr (r, popped) ↦
          let (top, rest) = All-pop (Queued s stop) s.heap r i.queued popped in
          let (above, kept) = pop-least s.heap r popped in
          let s' : Search = record s { heap = r.1 } in
          let i' : IsSearch stop s' = record {
            capped = i.capped;
            ordered = i.ordered;
            rooted = i.rooted;
            queued = rest;
          } in
          let short' : IsShort m stop s' = record {
            origin = short.origin;
            cheap = short.cheap;
            found = short.found;
          } in
          elim (Bool-cases (bytes_eq r.0.1 destination)) [
            | inl there ↦
                let run : search (suc fuel) edges destination s ≡ some s' =
                  rw (popped, search, there) in
                let near : dist_of destination s ≤ r.0.0 =
                  subst (λ y. dist_of y s ≤ r.0.0) ((bytes_eq_iff r.0.1 destination).0 there)
                    top.1 in
                subst (Ended m stop edges destination) (some-injective (sym run ∙ e)) (
                  short',
                  (
                    min r.0.0 max_cost,
                    omega (arith, near, i.capped destination),
                    All-map (Settled s) (IsFinal (min r.0.0 max_cost) s')
                        (λ e. Settled-IsFinal r.0.0 s e above) edges settled,
                  ),
                )
            | inr on ↦
                let next = visit edges r.0 s' in
                let run : search (suc fuel) edges destination s
                    ≡ search fuel edges destination next =
                  rw (popped, search, on) in
                let (short'', settled') = visit-IsShort m stop edges r.0 s' entries i' top short' (
                  All-map (Settled s) (Left r.0 s') (λ e. Settled-Left s r e kept) edges settled) in
                search-Ended m stop fuel edges destination next u entries
                  (visit-IsSearch stop edges r.0 s' i' top) short'' settled' (sym run ∙ e)
          ]
    ]
