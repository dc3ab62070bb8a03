-- ===== src/Mesh/Router/Short.antt =====
-- src/mesh/router.rs: what the search keeps true of the distances and the entries of `prev`.
use entrouter_line.Base.{
  ℕ, ◌+◌, ◌%◌, ◌^◌, ◌≤◌, ◌<◌, ◌≡◌, sym, ap, ◌∙◌, ◌⊎◌, inl, inr, List, [], ◌∷◌, some, some-injective,
  Bytes, bytes_eq, bytes_eq_iff, string_eq, lookup, lookup-insert_self, lookup-insert_ne,
  Bool-cases, arith,
}
use mathlib.Core.Path.{subst}
use entrouter_line.Mesh.LatencyMatrix.{LatencyMatrix, Edge, as_micros, get_rtt}
use entrouter_line.Mesh.Router.{DijkstraState, Search, max_cost, dist_of, or_zero}
use entrouter_line.Mesh.Router.Chains.{bytes_ne}
use entrouter_line.Mesh.Router.Distances.{moved, dist-moved_self, dist-moved_ne, dist-moved_less}

-- The cost of an edge in the search.
abbrev pub micros : LatencyMatrix → Bytes → Bytes → ℕ
micros m a b = as_micros (or_zero (get_rtt m a b)) % 2 ^ 64

-- The matrix reads an edge as it is listed.
unfoldable pub IsEntry : LatencyMatrix → Edge → Type 0
IsEntry m (from, to, rtt) = get_rtt m from to ≡ some rtt

unfoldable pub Waits : DijkstraState → List DijkstraState → Type 0
Waits t [] = ⊥
Waits t (s ∷ heap) = (s ≡ t) ⊎ Waits t heap

-- The source of the edge is not reached, or it waits in the heap, or the edge is no short cut.
unfoldable pub Settled : Search → Edge → Type 0
Settled s (from, to, rtt) =
    (dist_of from s ≡ max_cost)
    ⊎ (Waits (dist_of from s, from) s.heap
        ⊎ (dist_of to s ≤ dist_of from s + as_micros rtt % 2 ^ 64))

pub record IsShort (m : LatencyMatrix) (stop : Bytes) (s : Search) : Type 0 where
  pub origin : dist_of stop s ≤ 0
  pub cheap : (x p : Bytes) → lookup x s.prev ≡ some p → dist_of p s + micros m p x ≤ dist_of x s
  pub found :
      (x : Bytes) → dist_of x s < max_cost → (x ≡ stop) ⊎ ((p : Bytes) × (lookup x s.prev ≡ some p))

module _ (m : LatencyMatrix) (stop : Bytes) (s : Search) (u v : Bytes) (new_cost : ℕ)
    (near : dist_of u s + micros m u v ≤ new_cost) (nearer : new_cost < dist_of v s) where
  moved-cheap :
      ((x p : Bytes) → lookup x s.prev ≡ some p → dist_of p s + micros m p x ≤ dist_of x s)
      → (x p : Bytes) → lookup x (moved s u v new_cost).prev ≡ some p
      → dist_of p (moved s u v new_cost) + micros m p x ≤ dist_of x (moved s u v new_cost)
  moved-cheap h x p e = elim (Bool-cases (bytes_eq v x)) [
    | inl same ↦
        let at : v ≡ x = (bytes_eq_iff v x).0 same in
        let after = moved s u v new_cost in
        let parent : u ≡ p = some-injective (
          sym (lookup-insert_self v u s.prev)
          ∙ subst (λ y. lookup y after.prev ≡ some p) (sym at) e) in
        subst (λ y. dist_of p after + micros m p y ≤ dist_of y after) at
          (subst (λ q. dist_of q after + micros m q v ≤ dist_of v after) parent
            (omega (
              arith,
              dist-moved_less s u v new_cost nearer u,
              dist-moved_self s u v new_cost,
              near,
            )))
    | inr other ↦
        let ne = bytes_ne v x other in
        let old = h x p (sym (lookup-insert_ne v x u s.prev ne) ∙ e) in
        omega
          (arith, old, dist-moved_less s u v new_cost nearer p, dist-moved_ne s u v new_cost x ne)
  ]

  moved-found :
      ((x : Bytes)
        → dist_of x s < max_cost
        → (x ≡ stop) ⊎ ((p : Bytes) × (lookup x s.prev ≡ some p)))
      → (x : Bytes) → dist_of x (moved s u v new_cost) < max_cost
      → (x ≡ stop) ⊎ ((p : Bytes) × (lookup x (moved s u v new_cost).prev ≡ some p))
  moved-found h x less = elim (Bool-cases (bytes_eq v x)) [
    | inl same ↦
        let at : v ≡ x = (bytes_eq_iff v x).0 same in
        inr (
          u,
          subst (λ y. lookup y (moved s u v new_cost).prev ≡ some u) at
              (lookup-insert_self v u s.prev),
        )
    | inr other ↦
        let ne = bytes_ne v x other in
        elim (h x (omega (arith, dist-moved_ne s u v new_cost x ne))) [
          | inl start ↦ inl start
          | inr (p, e) ↦ inr (p, lookup-insert_ne v x u s.prev ne ∙ e)
        ]
  ]

  pub moved-IsShort : IsShort m stop s → IsShort m stop (moved s u v new_cost)
  moved-IsShort i = record {
    origin = omega (arith, i.origin, dist-moved_less s u v new_cost nearer stop);
    cheap = moved-cheap i.cheap;
    found = moved-found i.found;
  }

module _ (s : Search) (u v : Bytes) (new_cost : ℕ) (nearer : new_cost < dist_of v s) where
  -- An edge that was settled stays so.
  pub moved-Settled : (e : Edge) → Settled s e → Settled (moved s u v new_cost) e
  unfolding Settled Waits
  moved-Settled (from, to, rtt) h = elim (Bool-cases (bytes_eq v from)) [
    | inl same ↦
        let at : v ≡ from = (bytes_eq_iff v from).0 same in
        let after = moved s u v new_cost in
        let new_dist : dist_of from after ≡ new_cost =
          subst (λ y. dist_of y after ≡ new_cost) at (dist-moved_self s u v new_cost) in
        inr (inl (inl (ap (λ d. (d, v)) (sym new_dist) ∙ ap (λ y. (dist_of from after, y)) at)))
    | inr other ↦
        let after = moved s u v new_cost in
        let kept : dist_of from after ≡ dist_of from s =
          dist-moved_ne s u v new_cost from (bytes_ne v from other) in
        elim h [
          | inl far ↦ inl (kept ∙ far)
          | inr (inl waits) ↦ inr (inl (inr (subst (λ d. Waits (d, from) s.heap) (sym kept) waits)))
          | inr (inr long) ↦
              inr (inr (omega (arith, kept, dist-moved_less s u v new_cost nearer to, long)))
        ]
  ]
