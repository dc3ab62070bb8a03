-- ===== src/Relay/FecCodec/Cells.antt =====
-- src/relay/fec_codec.rs, the cells of a `PendingBlock`.
use entrouter_line.Base.{
  ℕ, zero, suc, ◌≤◌, ◌<◌, ◌≡◌, ◌≢◌, refl, ap, List, [], ◌∷◌, Option, none, some, Bytes, length,
  get_elem?, get_or, set, replicate, arith,
}
use entrouter_line.Relay.Fec.Encoder.{IsPart, present}

-- Cell `i` is empty.
abbrev pub IsFree : List (Option Bytes) → ℕ → Type 0
IsFree got i = get_or got i none ≡ none

pub IsPart-set :
    (got : List (Option Bytes)) (full : List Bytes) (i : ℕ) (s : Bytes)
    → IsPart got full
    → get_elem? full i ≡ some s
    → IsPart (set got i (some s)) full
IsPart-set [] full i s h e = h
IsPart-set (c ∷ got) [] i s h e = absurd h
IsPart-set (none ∷ got) (x ∷ full) zero s h e = (cc, h)
IsPart-set (some y ∷ got) (x ∷ full) zero s h e = (cc, h.1)
IsPart-set (none ∷ got) (x ∷ full) (suc i) s h e = IsPart-set got full i s h e
IsPart-set (some y ∷ got) (x ∷ full) (suc i) s h e = (h.0, IsPart-set got full i s h.1 e)

pub present-set :
    (got : List (Option Bytes)) (i : ℕ) (s : Bytes)
    → i < length got
    → IsFree got i
    → present (set got i (some s)) ≡ suc (present got)
present-set [] i s h free = absurd (omega arith)
present-set (none ∷ got) zero s h free = refl
present-set (some x ∷ got) zero s h free = cc
present-set (none ∷ got) (suc i) s h free = present-set got i s (omega arith) free
present-set (some x ∷ got) (suc i) s h free = ap suc (present-set got i s (omega arith) free)

pub IsFree-set :
    (got : List (Option Bytes)) (i j : ℕ) (s : Bytes)
    → j ≢ i
    → IsFree got j
    → IsFree (set got i (some s)) j
IsFree-set [] i j s ne free = free
IsFree-set (c ∷ got) zero zero s ne free = absurd (ne refl)
IsFree-set (c ∷ got) zero (suc j) s ne free = free
IsFree-set (c ∷ got) (suc i) zero s ne free = free
IsFree-set (c ∷ got) (suc i) (suc j) s ne free = IsFree-set got i j s (λ e. ne (ap suc e)) free

pub length-IsPart :
    (got : List (Option Bytes)) (full : List Bytes) → IsPart got full → length got ≡ length full
length-IsPart [] [] h = refl
length-IsPart [] (x ∷ full) h = absurd h
length-IsPart (c ∷ got) [] h = absurd h
length-IsPart (none ∷ got) (x ∷ full) h = ap suc (length-IsPart got full h)
length-IsPart (some y ∷ got) (x ∷ full) h = ap suc (length-IsPart got full h.1)

pub IsPart-replicate : (full : List Bytes) → IsPart (replicate (length full) none) full
IsPart-replicate [] = tt
IsPart-replicate (x ∷ full) = IsPart-replicate full

pub present-replicate : (n : ℕ) → present (replicate n none) ≡ 0
present-replicate zero = refl
present-replicate (suc n) = present-replicate n

pub IsFree-replicate : (n i : ℕ) → IsFree (replicate n none) i
IsFree-replicate zero i = refl
IsFree-replicate (suc n) zero = refl
IsFree-replicate (suc n) (suc i) = IsFree-replicate n i

pub get_elem?-some :
    (full : List Bytes) (i : ℕ) → i < length full → (s : Bytes) × (get_elem? full i ≡ some s)
get_elem?-some [] i h = absurd (omega arith)
get_elem?-some (x ∷ full) zero h = (x, refl)
get_elem?-some (x ∷ full) (suc i) h = get_elem?-some full i (omega arith)

pub present-le :
    (got : List (Option Bytes)) (full : List Bytes) → IsPart got full → present got ≤ length full
present-le [] full h = omega arith
present-le (c ∷ got) [] h = absurd h
present-le (none ∷ got) (x ∷ full) h = omega (arith, present-le got full h)
present-le (some y ∷ got) (x ∷ full) h = omega (arith, present-le got full h.1)
