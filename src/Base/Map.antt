-- ===== src/Base/Map.antt =====
-- Hash maps as association lists over keys with a decidable test for equality.
use mathlib.Core.Path.{◌≡◌, refl}
use mathlib.Core.Logic.{◌↔◌, ◌≢◌}
use mathlib.Core.Bool.{Bool, true, ◌&&◌}
use mathlib.Core.List.{List, [], ◌∷◌}
use mathlib.Core.Option.{Option, none, some}
use native.Mathlib.Omega.{arith}
use Prim.Native.Nat.{ℕ, ◌+◌}
use entrouter_line.Base.Tests.{◌==◌, ==_iff, if◌then◌else◌, is_some}
use entrouter_line.Base.Lists.{length}
use entrouter_line.Base.Octets.{Bytes, bytes_eq, bytes_eq_iff}

pub record Eq {ℓ} (K : Type ℓ) : Type ℓ where
  pub beq : K → K → Bool
  pub beq_iff : (a b : K) → (beq a b ≡ true) ↔ (a ≡ b)

instance abbrev pub nat_eq : Eq ℕ
nat_eq = record { beq = λ a b. a == b; beq_iff = ==_iff }

instance abbrev pub string_eq : Eq Bytes
string_eq = record { beq = bytes_eq; beq_iff = bytes_eq_iff }

pub pair_beq_iff : (a b : Bytes × Bytes) → ((bytes_eq a.0 b.0 && bytes_eq a.1 b.1) ≡ true) ↔ (a ≡ b)
pair_beq_iff (a, x) (b, y) = ground (arith, bytes_eq_iff a b, bytes_eq_iff x y)

instance abbrev pub pair_eq : Eq (Bytes × Bytes)
pair_eq = record { beq = λ a b. bytes_eq a.0 b.0 && bytes_eq a.1 b.1; beq_iff = pair_beq_iff }

pub beq_refl {ℓ} : {K : Type ℓ} ⦃e : Eq K⦄ (k : K) → e.beq k k ≡ true
beq_refl ⦃e⦄ k = (e.beq_iff k k).1 refl

module _ {ℓ κ} {K : Type ℓ} {V : Type κ} where
  -- `retain` with a test on the value.
  abbrev pub retain : (V → Bool) → List (K × V) → List (K × V)
  retain p [] = []
  retain p ((j, v) ∷ m) = let rest = retain p m in if p v then (j, v) ∷ rest else rest

module _ {ℓ κ} {K : Type ℓ} {V : Type κ} ⦃e : Eq K⦄ where
  abbrev pub lookup : K → List (K × V) → Option V
  lookup k [] = none
  lookup k ((j, v) ∷ m) = if e.beq j k then some v else lookup k m

  -- A key that is there keeps its place.
  abbrev pub insert : K → V → List (K × V) → List (K × V)
  insert k v [] = (k, v) ∷ []
  insert k v ((j, w) ∷ m) = if e.beq j k then (k, v) ∷ m else (j, w) ∷ insert k v m

  abbrev pub remove : K → List (K × V) → List (K × V)
  remove k [] = []
  remove k ((j, v) ∷ m) = let rest = remove k m in if e.beq j k then rest else (j, v) ∷ rest

  pub lookup-insert :
      (k j : K) (v : V) (m : List (K × V))
      → lookup j (insert k v m) ≡ (if e.beq k j then some v else lookup j m)
  lookup-insert k j v [] = refl
  lookup-insert k j v ((i, w) ∷ m) =
      ground (arith, e.beq_iff k j, e.beq_iff i k, e.beq_iff i j, lookup-insert k j v m)

  pub lookup-remove :
      (k j : K) (m : List (K × V))
      → lookup j (remove k m) ≡ (if e.beq k j then none else lookup j m)
  lookup-remove k j [] = ground arith
  lookup-remove k j ((i, w) ∷ m) =
      ground (arith, e.beq_iff k j, e.beq_iff i k, e.beq_iff i j, lookup-remove k j m)

  pub lookup-insert_self : (k : K) (v : V) (m : List (K × V)) → lookup k (insert k v m) ≡ some v
  lookup-insert_self k v m = ground (arith, lookup-insert k k v m, e.beq_iff k k)

  pub lookup-remove_self : (k : K) (m : List (K × V)) → lookup k (remove k m) ≡ none
  lookup-remove_self k m = ground (arith, lookup-remove k k m, e.beq_iff k k)

  pub lookup-insert_ne :
      (k j : K) (v : V) (m : List (K × V)) → k ≢ j → lookup j (insert k v m) ≡ lookup j m
  lookup-insert_ne k j v m ne = ground (arith, lookup-insert k j v m, e.beq_iff k j)

  pub lookup-remove_ne : (k j : K) (m : List (K × V)) → k ≢ j → lookup j (remove k m) ≡ lookup j m
  lookup-remove_ne k j m ne = ground (arith, lookup-remove k j m, e.beq_iff k j)

  pub length-insert :
      (k : K) (v : V) (m : List (K × V))
      → length (insert k v m) ≡ (if is_some (lookup k m) then length m else length m + 1)
  length-insert k v [] = refl
  length-insert k v ((i, w) ∷ m) = ground (arith, length-insert k v m)

  pub lookup-retain_kept :
      (p : V → Bool) (k : K) (v : V) (m : List (K × V))
      → lookup k m ≡ some v
      → p v ≡ true
      → lookup k (retain p m) ≡ some v
  lookup-retain_kept p k v [] h t = cc
  lookup-retain_kept p k v ((i, w) ∷ m) h t = ground (arith, lookup-retain_kept p k v m)

  pub lookup-retain_absent :
      (p : V → Bool) (k : K) (m : List (K × V)) → lookup k m ≡ none → lookup k (retain p m) ≡ none
  lookup-retain_absent p k [] h = refl
  lookup-retain_absent p k ((i, w) ∷ m) h = ground (arith, lookup-retain_absent p k m)

  pub insert_twice : (k : K) (v w : V) (m : List (K × V)) → insert k v (insert k w m) ≡ insert k v m
  insert_twice k v w [] = ground (arith, e.beq_iff k k)
  insert_twice k v w ((i, u) ∷ m) =
      ground (arith, e.beq_iff k k, e.beq_iff i k, insert_twice k v w m)

  pub insert-lookup : (k : K) (v : V) (m : List (K × V)) → lookup k m ≡ some v → insert k v m ≡ m
  insert-lookup k v [] h = cc
  insert-lookup k v ((i, u) ∷ m) h = ground (arith, e.beq_iff i k, insert-lookup k v m)
