-- ===== src/Base/Everywhere.antt =====
-- What holds of all elements of a list, or of all values of a map.
use Prim.Native.Nat.{ℕ, zero, suc}
use mathlib.Core.Path.{◌≡◌, refl, sym, ◌∙◌}
use mathlib.Core.Logic.{inl, inr}
use mathlib.Core.Bool.{Bool}
use mathlib.Core.List.{List, [], ◌∷◌}
use mathlib.Core.Option.{some}
use entrouter_line.Base.Tests.{Bool-cases, some-injective, none≢some}
use entrouter_line.Base.Lists.{All, set, get_elem?, get_or, take, drop}
use entrouter_line.Base.Map.{Eq, lookup, insert, remove, retain}

module _ {ℓ κ} {A : Type ℓ} where
  pub All-map : (P Q : A → Type κ) → ((a : A) → P a → Q a) → (xs : List A) → All P xs → All Q xs
  All-map P Q f [] ps = tt
  All-map P Q f (x ∷ xs) (p, ps) = (f x p, All-map P Q f xs ps)

  pub All-zip :
      (P Q R : A → Type κ)
      → ((a : A) → P a → Q a → R a)
      → (xs : List A) → All P xs
      → All Q xs
      → All R xs
  All-zip P Q R f [] ps qs = tt
  All-zip P Q R f (x ∷ xs) (p, ps) (q, qs) = (f x p q, All-zip P Q R f xs ps qs)

  pub All-set : (P : A → Type κ) (xs : List A) (i : ℕ) (a : A) → P a → All P xs → All P (set xs i a)
  All-set P [] i a p ps = ps
  All-set P (x ∷ xs) zero a p ps = (p, ps.1)
  All-set P (x ∷ xs) (suc i) a p ps = (ps.0, All-set P xs i a p ps.1)

  pub All-get_elem? :
      (P : A → Type κ) (xs : List A) (i : ℕ) (a : A) → get_elem? xs i ≡ some a → All P xs → P a
  All-get_elem? P [] i a e ps = absurd (none≢some e)
  All-get_elem? P (x ∷ xs) zero a e ps = rw (sym (some-injective e)) ps.0
  All-get_elem? P (x ∷ xs) (suc i) a e ps = All-get_elem? P xs i a e ps.1

  pub All-take : (P : A → Type κ) (n : ℕ) (xs : List A) → All P xs → All P (take n xs)
  All-take P zero xs ps = tt
  All-take P (suc n) [] ps = tt
  All-take P (suc n) (x ∷ xs) (p, ps) = (p, All-take P n xs ps)

  pub All-get_or :
      (P : A → Type κ) (xs : List A) (i : ℕ) (d : A) → P d → All P xs → P (get_or xs i d)
  All-get_or P [] i d p ps = p
  All-get_or P (x ∷ xs) zero d p ps = ps.0
  All-get_or P (x ∷ xs) (suc i) d p ps = All-get_or P xs i d p ps.1

module _ {ℓ κ μ} {K : Type ℓ} {V : Type κ} where
  abbrev pub EachValue : (V → Type μ) → List (K × V) → Type μ
  EachValue P [] = Unit {μ}
  EachValue P ((k, v) ∷ m) = P v × EachValue P m

  pub EachValue-retain :
      (P : V → Type μ) (p : V → Bool) (m : List (K × V)) → EachValue P m → EachValue P (retain p m)
  EachValue-retain P p [] hs = hs
  EachValue-retain P p ((k, v) ∷ m) (h, hs) = elim (Bool-cases (p v)) [
    | inl keep ↦ rw keep (h, EachValue-retain P p m hs)
    | inr drop ↦ rw drop (EachValue-retain P p m hs)
  ]

module _ {ℓ κ μ} {K : Type ℓ} {V : Type κ} ⦃e : Eq K⦄ where
  pub EachValue-lookup :
      (P : V → Type μ) (k : K) (v : V) (m : List (K × V))
      → lookup k m ≡ some v
      → EachValue P m
      → P v
  EachValue-lookup P k v [] f hs = absurd (none≢some f)
  EachValue-lookup P k v ((j, w) ∷ m) f (h, hs) = elim (Bool-cases (e.beq j k)) [
    | inl here ↦
        let run : lookup k ((j, w) ∷ m) ≡ some w = rw here refl in
        rw (sym (some-injective (sym run ∙ f))) h
    | inr later ↦
        let run : lookup k ((j, w) ∷ m) ≡ lookup k m = rw later refl in
        EachValue-lookup P k v m (sym run ∙ f) hs
  ]

  pub EachValue-insert :
      (P : V → Type μ) (k : K) (v : V) (m : List (K × V))
      → P v
      → EachValue P m
      → EachValue P (insert k v m)
  EachValue-insert P k v [] p hs = (p, hs)
  EachValue-insert P k v ((j, w) ∷ m) p (h, hs) = elim (Bool-cases (e.beq j k)) [
    | inl here ↦ rw here (p, hs)
    | inr later ↦ rw later (h, EachValue-insert P k v m p hs)
  ]

  pub EachValue-remove :
      (P : V → Type μ) (k : K) (m : List (K × V)) → EachValue P m → EachValue P (remove k m)
  EachValue-remove P k [] hs = hs
  EachValue-remove P k ((j, w) ∷ m) (h, hs) = elim (Bool-cases (e.beq j k)) [
    | inl here ↦ rw here (EachValue-remove P k m hs)
    | inr later ↦ rw later (h, EachValue-remove P k m hs)
  ]
