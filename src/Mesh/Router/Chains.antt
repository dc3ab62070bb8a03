-- ===== src/Mesh/Router/Chains.antt =====
-- src/mesh/router.rs: the entries of `prev` lead back to the start, so that the walk back ends.
use entrouter_line.Base.{
  ℕ, zero, suc, ◌≤◌, ◌<◌, ◌≡◌, ◌≢◌, refl, sym, ap, ◌∙◌, inl, inr, false, List, [], ◌∷◌, some,
  some-injective, Bytes, bytes_eq, bytes_eq_iff, string_eq, lookup, insert, remove,
  lookup-insert_self, lookup-insert_ne, lookup-remove_ne, Bool-cases, length, arith,
}
use mathlib.Core.Bool.{false≢true}
use mathlib.Core.Path.{subst}
use entrouter_line.Mesh.Router.{walk_back}

-- From a node, `n` entries of `prev` lead to a node at which the walk stops.
unfoldable pub Reaches : List (Bytes × Bytes) → Bytes → ℕ → Bytes → Type 0
Reaches prev stop zero x = x ≡ stop
Reaches prev stop (suc n) x =
    (x ≢ stop) × ((p : Bytes) × (lookup x prev ≡ some p) × Reaches prev stop n p)

Reaches-unique :
    (prev : List (Bytes × Bytes)) (stop x : Bytes) (n k : ℕ)
    → Reaches prev stop n x
    → Reaches prev stop k x
    → n ≡ k
unfolding Reaches
Reaches-unique prev stop x zero zero r s = refl
Reaches-unique prev stop x zero (suc k) r s = absurd (s.0 r)
Reaches-unique prev stop x (suc n) zero r s = absurd (r.0 s)
Reaches-unique prev stop x (suc n) (suc k) (ne, (p, e, r)) (ne', (q, e', s)) =
    let same : q ≡ p = some-injective (sym e' ∙ e) in
    ap suc (Reaches-unique prev stop p n k r (subst (Reaches prev stop k) same s))

pub bytes_ne : (a b : Bytes) → bytes_eq a b ≡ false → a ≢ b
bytes_ne a b h e = false≢true (sym h ∙ (bytes_eq_iff a b).1 e)

-- A chain does not come back to where a longer one started.
Reaches-remove :
    (prev : List (Bytes × Bytes)) (stop x y : Bytes) (long n : ℕ)
    → Reaches prev stop long x
    → n < long
    → Reaches prev stop n y
    → Reaches (remove x prev) stop n y
unfolding Reaches
Reaches-remove prev stop x y long zero rx less r = r
Reaches-remove prev stop x y long (suc n) rx less (ne, (p, e, r)) =
    let apart : x ≢ y = λ q.
      let k : long ≡ suc n =
        Reaches-unique prev stop y long (suc n) (subst (Reaches prev stop long) q rx)
          (ne, (p, e, r)) in
      omega arith in
    (
      ne,
      (
        p,
        lookup-remove_ne x y prev apart ∙ e,
        Reaches-remove prev stop x p long n rx (omega arith) r,
      ),
    )

length-remove :
    (x p : Bytes) (prev : List (Bytes × Bytes))
    → (length (remove x prev) ≤ length prev)
      × (lookup x prev ≡ some p → length (remove x prev) < length prev)
length-remove x p [] = (omega arith, λ e. absurd (cc))
length-remove x p ((j, q) ∷ prev) = ground (arith, length-remove x p prev)

-- A chain is not longer than `prev`.
pub Reaches-length :
    (n : ℕ) (prev : List (Bytes × Bytes)) (stop x : Bytes) → Reaches prev stop n x → n ≤ length prev
unfolding Reaches
Reaches-length zero prev stop x r = omega arith
Reaches-length (suc n) prev stop x (ne, (p, e, r)) =
    let rest =
      Reaches-length n (remove x prev) stop p
        (Reaches-remove prev stop x p (suc n) n (ne, (p, e, r)) (omega arith) r) in
    omega (arith, rest, (length-remove x p prev).1 e)

-- A new entry for `v`, from which `u` leads on to the start without `v`, keeps all chains ending.
pub Reaches-insert :
    (prev : List (Bytes × Bytes)) (stop v u : Bytes) (nu : ℕ)
    → Reaches (insert v u prev) stop nu u
    → (n : ℕ) (x : Bytes) → Reaches prev stop n x
    → (k : ℕ) × Reaches (insert v u prev) stop k x
unfolding Reaches
Reaches-insert prev stop v u nu ru zero x r = (zero, r)
Reaches-insert prev stop v u nu ru (suc n) x (ne, (p, e, r)) = elim (Bool-cases (bytes_eq v x)) [
  | inl same ↦
      let at : v ≡ x = (bytes_eq_iff v x).0 same in
      (
        suc nu,
        (
          ne,
          (
            u,
            subst (λ y. lookup y (insert v u prev) ≡ some u) at (lookup-insert_self v u prev),
            ru,
          ),
        ),
      )
  | inr other ↦
      let (k, rest) = Reaches-insert prev stop v u nu ru n p r in
      (suc k, (ne, (p, lookup-insert_ne v x u prev (bytes_ne v x other) ∙ e, rest)))
]

-- The walk over a chain ends with a path.
pub walk_back-ends :
    (fuel n : ℕ) (prev : List (Bytes × Bytes)) (stop : Bytes) (path : List Bytes) (x : Bytes)
    → n < fuel
    → Reaches prev stop n x
    → (q : List Bytes) × (walk_back fuel prev stop path x ≡ some (some q))
unfolding walk_back Reaches
walk_back-ends zero n prev stop path x less r = absurd (omega arith)
walk_back-ends (suc fuel) zero prev stop path x less r =
    (path, rw ((bytes_eq_iff x stop).1 r, walk_back))
walk_back-ends (suc fuel) (suc n) prev stop path x less (ne, (p, e, r)) =
    let (q, run) = walk_back-ends fuel n prev stop (p ∷ path) p (omega arith) r in
    let apart : bytes_eq x stop ≡ false = ground (arith, bytes_eq_iff x stop) in
    let step : walk_back (suc fuel) prev stop path x ≡ walk_back fuel prev stop (p ∷ path) p =
      rw (apart, walk_back, e) in
    (q, step ∙ run)
