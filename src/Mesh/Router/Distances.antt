-- ===== src/Mesh/Router/Distances.antt =====
-- src/mesh/router.rs: the distances after an edge has led to a shorter one.
use entrouter_line.Base.{
  ℕ, ◌≤◌, ◌<◌, ◌≡◌, ◌≢◌, ap, inl, inr, ◌∷◌, Bytes, bytes_eq, bytes_eq_iff, string_eq, insert,
  lookup-insert_self, lookup-insert_ne, Bool-cases, arith,
}
use mathlib.Core.Path.{subst}
use entrouter_line.Mesh.Router.{Search, or_max, dist_of}
use entrouter_line.Mesh.Router.Chains.{bytes_ne}

module _ (s : Search) (u v : Bytes) (new_cost : ℕ) where
  abbrev pub moved : Search
  moved = record {
    dist = insert v new_cost s.dist;
    prev = insert v u s.prev;
    heap = (new_cost, v) ∷ s.heap;
  }

  pub dist-moved_self : dist_of v moved ≡ new_cost
  dist-moved_self = ap or_max (lookup-insert_self v new_cost s.dist)

  pub dist-moved_ne : (x : Bytes) → v ≢ x → dist_of x moved ≡ dist_of x s
  dist-moved_ne x ne = ap or_max (lookup-insert_ne v x new_cost s.dist ne)

  pub dist-moved_less : new_cost < dist_of v s → (x : Bytes) → dist_of x moved ≤ dist_of x s
  dist-moved_less nearer x = elim (Bool-cases (bytes_eq v x)) [
    | inl same ↦
        let at : v ≡ x = (bytes_eq_iff v x).0 same in
        subst (λ y. dist_of y moved ≤ dist_of y s) at (omega (arith, dist-moved_self, nearer))
    | inr other ↦ omega (arith, dist-moved_ne x (bytes_ne v x other))
  ]
