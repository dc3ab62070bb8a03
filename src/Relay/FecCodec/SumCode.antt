-- ===== src/Relay/FecCodec/SumCode.antt =====
-- An erasure code for two data shards and one parity shard that keeps the promise of `Recovers`, for
-- the examples.
use entrouter_line.Base.{
  ℕ, suc, ap, ◌+◌, ◌-◌, ◌≤◌, ◌<◌, ◌≡◌, refl, List, [], ◌∷◌, ◌++◌, map, Option, none, some, Bytes,
  length, replicate, arith, nat_eq, ◌==◌, ◌&&◌,
}
use entrouter_line.Relay.Fec.{ReedSolomon}
use entrouter_line.Relay.Fec.Encoder.{IsPart, present, Recovers, Uniform}
use entrouter_line.Relay.FecCodec.Cells.{present-le}

unfoldable pub plus : Bytes → Bytes → Bytes
plus [] ys = []
plus (x ∷ xs) [] = []
plus (x ∷ xs) (y ∷ ys) = (x + y) ∷ plus xs ys

unfoldable pub minus : Bytes → Bytes → Bytes
minus [] ys = []
minus (x ∷ xs) [] = []
minus (x ∷ xs) (y ∷ ys) = (x - y) ∷ minus xs ys

pub length-plus : (xs ys : Bytes) → length xs ≡ length ys → length (plus xs ys) ≡ length xs
unfolding plus
length-plus [] ys h = refl
length-plus (x ∷ xs) [] h = absurd (omega arith)
length-plus (x ∷ xs) (y ∷ ys) h = ap suc (length-plus xs ys (omega arith))

minus-plus_left : (xs ys : Bytes) → length xs ≡ length ys → minus (plus xs ys) xs ≡ ys
unfolding plus minus
minus-plus_left [] [] h = refl
minus-plus_left [] (y ∷ ys) h = absurd (omega arith)
minus-plus_left (x ∷ xs) [] h = absurd (omega arith)
minus-plus_left (x ∷ xs) (y ∷ ys) h =
    let e : x + y - x ≡ y = omega arith in rw (e, minus-plus_left xs ys (omega arith))

minus-plus_right : (xs ys : Bytes) → length xs ≡ length ys → minus (plus xs ys) ys ≡ xs
unfolding plus minus
minus-plus_right [] [] h = refl
minus-plus_right [] (y ∷ ys) h = absurd (omega arith)
minus-plus_right (x ∷ xs) [] h = absurd (omega arith)
minus-plus_right (x ∷ xs) (y ∷ ys) h =
    let e : x + y - y ≡ x = omega arith in rw (e, minus-plus_right xs ys (omega arith))

-- The parity shard is the sum of the two data shards, cell by cell.
unfoldable pub encode_sum : List Bytes → Option (List Bytes)
encode_sum (a ∷ b ∷ c ∷ []) = some (a ∷ b ∷ plus a b ∷ [])
encode_sum _ = none

unfoldable pub restore_sum : List (Option Bytes) → Option (List (Option Bytes))
restore_sum (some a ∷ some b ∷ c ∷ []) = some (some a ∷ some b ∷ some (plus a b) ∷ [])
restore_sum (some a ∷ none ∷ some c ∷ []) = some (some a ∷ some (minus c a) ∷ some c ∷ [])
restore_sum (none ∷ some b ∷ some c ∷ []) = some (some (minus c b) ∷ some b ∷ some c ∷ [])
restore_sum _ = none

abbrev pub sum_code : ReedSolomon
sum_code = record {
  accepts = λ k p. k == 2 && p == 1;
  encode = λ k p shards. encode_sum shards;
  reconstruct = λ k p shards. restore_sum shards;
}

abbrev pub sum_parity : List Bytes → List Bytes
sum_parity (a ∷ b ∷ []) = plus a b ∷ []
sum_parity _ = [] ∷ []

module _ (a b : Bytes) (same : length a ≡ length b) where
  restore_pair :
      (got : List (Option Bytes))
      → IsPart got (a ∷ b ∷ plus a b ∷ [])
      → 2 ≤ present got
      → restore_sum got ≡ some (some a ∷ some b ∷ some (plus a b) ∷ [])
  unfolding restore_sum
  restore_pair (some x ∷ some y ∷ some z ∷ []) part enough = rw (part.0, part.1.0)
  restore_pair (some x ∷ some y ∷ none ∷ []) part enough = rw (part.0, part.1.0)
  restore_pair (some x ∷ none ∷ some z ∷ []) part enough =
      rw (part.0, part.1.0, minus-plus_left a b same)
  restore_pair (none ∷ some y ∷ some z ∷ []) part enough =
      rw (part.0, part.1.0, minus-plus_right a b same)
  restore_pair (none ∷ none ∷ got) part enough =
      absurd (omega (arith, present-le got (plus a b ∷ []) part))
  restore_pair (none ∷ some y ∷ none ∷ got) part enough =
      absurd (omega (arith, present-le got [] part.1))
  restore_pair (some x ∷ none ∷ none ∷ got) part enough =
      absurd (omega (arith, present-le got [] part.1))
  restore_pair got part enough = ground arith

pub sum_restores :
    (n : ℕ) (block : List Bytes) (got : List (Option Bytes))
    → length block ≡ 2
    → 0 < n
    → Uniform n block
    → IsPart got (block ++ sum_parity block)
    → 2 ≤ present got
    → restore_sum got ≡ some (map some (block ++ sum_parity block))
sum_restores n (a ∷ b ∷ []) got len pos u part enough =
    restore_pair a b (omega arith) got part enough
sum_restores n [] got len pos u part enough = absurd (omega arith)
sum_restores n (a ∷ []) got len pos u part enough = absurd (omega arith)
sum_restores n (a ∷ b ∷ c ∷ block) got len pos u part enough = absurd (omega arith)

pub sum_encodes :
    (n : ℕ) (block : List Bytes)
    → length block ≡ 2
    → 0 < n
    → Uniform n block
    → encode_sum (block ++ replicate 1 (replicate n 0)) ≡ some (block ++ sum_parity block)
unfolding encode_sum
sum_encodes n (a ∷ b ∷ []) len pos u = refl
sum_encodes n [] len pos u = absurd (omega arith)
sum_encodes n (a ∷ []) len pos u = absurd (omega arith)
sum_encodes n (a ∷ b ∷ c ∷ block) len pos u = absurd (omega arith)

pub length-sum_parity : (block : List Bytes) → length (sum_parity block) ≡ 1
length-sum_parity (a ∷ b ∷ []) = refl
length-sum_parity _ = refl

abbrev pub sum_Recovers : Recovers sum_code 2 1
sum_Recovers = record {
  accepted = refl;
  parity = sum_parity;
  encodes = sum_encodes;
  parity_length = length-sum_parity;
  restores = sum_restores;
}
