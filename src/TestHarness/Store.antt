-- ===== src/TestHarness/Store.antt =====
-- src/bin/test_harness.rs: the cells of the blocks are the shards that have arrived.
use entrouter_line.Base.{
  ℕ, zero, suc, ◌+◌, ◌<◌, ◌≡◌, ◌≢◌, refl, sym, ap, ◌∙◌, inl, inr, Bool, true, false, ◌&&◌, ◌||◌,
  List, [], ◌∷◌, Option, none, some, Bytes, length, get_elem?, set, replicate, ltb, lt→ltb, ◌==◌,
  ==_iff, if◌then◌else◌, nat_eq, lookup, insert, lookup-insert_self, lookup-insert_ne, Bool-cases,
  some-injective, arith,
}
use mathlib.Core.Bool.{false≢true}
use mathlib.Core.Path.{subst}
use entrouter_line.Relay.Fec.Encoder.{IsPart, present}
use entrouter_line.TestHarness.{Blocks, cells_or_new, store_shard, lost}

-- The shards that arrived: block and shard number.
abbrev pub Arrivals : Type 0
Arrivals = List (ℕ × ℕ)

abbrev pub arrived : Arrivals → ℕ → ℕ → Bool
arrived [] j i = false
arrived ((b, s) ∷ arrivals) j i = (b == j && s == i) || arrived arrivals j i

-- The cells of block `j`, from shard `i` on.
unfoldable pub cells_of : Arrivals → ℕ → ℕ → List Bytes → List (Option Bytes)
cells_of arrivals j i [] = []
cells_of arrivals j i (shard ∷ shards) =
    (if arrived arrivals j i then some shard else none) ∷ cells_of arrivals j (suc i) shards

-- How many shards of a block of `n` have not arrived.
unfoldable pub missing : Arrivals → ℕ → ℕ → ℕ → ℕ
missing arrivals j i zero = 0
missing arrivals j i (suc n) =
    let rest = missing arrivals j (suc i) n in if arrived arrivals j i then rest else suc rest

pub length-cells_of :
    (arrivals : Arrivals) (j i : ℕ) (shards : List Bytes)
    → length (cells_of arrivals j i shards) ≡ length shards
unfolding cells_of
length-cells_of arrivals j i [] = refl
length-cells_of arrivals j i (shard ∷ shards) = ap suc (length-cells_of arrivals j (suc i) shards)

pub cells_of-IsPart :
    (arrivals : Arrivals) (j i : ℕ) (shards : List Bytes)
    → IsPart (cells_of arrivals j i shards) shards
unfolding cells_of
cells_of-IsPart arrivals j i [] = tt
cells_of-IsPart arrivals j i (shard ∷ shards) = elim (Bool-cases (arrived arrivals j i)) [
  | inl here ↦ rw here (refl, cells_of-IsPart arrivals j (suc i) shards)
  | inr away ↦ rw away (cells_of-IsPart arrivals j (suc i) shards)
]

pub lost-cells_of :
    (arrivals : Arrivals) (j i : ℕ) (shards : List Bytes)
    → lost (cells_of arrivals j i shards) ≡ missing arrivals j i (length shards)
unfolding cells_of missing
lost-cells_of arrivals j i [] = refl
lost-cells_of arrivals j i (shard ∷ shards) = elim (Bool-cases (arrived arrivals j i)) [
  | inl here ↦ rw here (lost-cells_of arrivals j (suc i) shards)
  | inr away ↦ rw away (ap suc (lost-cells_of arrivals j (suc i) shards))
]

pub present-lost : (cells : List (Option Bytes)) → present cells + lost cells ≡ length cells
present-lost [] = refl
present-lost (none ∷ cells) = omega (arith, present-lost cells)
present-lost (some shard ∷ cells) = omega (arith, present-lost cells)

pub cells_of_empty :
    (j i : ℕ) (shards : List Bytes) → cells_of [] j i shards ≡ replicate (length shards) none
unfolding cells_of
cells_of_empty j i [] = refl
cells_of_empty j i (shard ∷ shards) = ap (λ cells. none ∷ cells) (cells_of_empty j (suc i) shards)

-- One more arrival fills one cell.
cells_of-other :
    (arrivals : Arrivals) (b s j i : ℕ) (shards : List Bytes)
    → (b ≢ j)
    → cells_of ((b, s) ∷ arrivals) j i shards ≡ cells_of arrivals j i shards
unfolding cells_of
cells_of-other arrivals b s j i [] ne = refl
cells_of-other arrivals b s j i (shard ∷ shards) ne =
    let off : (b == j) ≡ false = ground (arith, ==_iff b j) in
    rw (off, cells_of-other arrivals b s j (suc i) shards ne) refl

cells_of-before :
    (arrivals : Arrivals) (b s j i : ℕ) (shards : List Bytes)
    → s < i
    → cells_of ((b, s) ∷ arrivals) j i shards ≡ cells_of arrivals j i shards
unfolding cells_of
cells_of-before arrivals b s j i [] less = refl
cells_of-before arrivals b s j i (shard ∷ shards) less =
    let off : (b == j && s == i) ≡ false = ground (arith, ==_iff s i) in
    rw (off, cells_of-before arrivals b s j (suc i) shards (omega arith)) refl

cells_of-set :
    (arrivals : Arrivals) (j i k : ℕ) (shards : List Bytes) (shard : Bytes)
    → get_elem? shards k ≡ some shard
    → cells_of ((j, i + k) ∷ arrivals) j i shards
      ≡ set (cells_of arrivals j i shards) k (some shard)
unfolding cells_of
cells_of-set arrivals j i k [] shard e = cc
cells_of-set arrivals j i zero (s ∷ shards) shard e =
    let here : (j == j && (i + 0) == i) ≡ true = ground (arith, ==_iff j j, ==_iff (i + 0) i) in
    rw (here, cells_of-before arrivals j (i + 0) j (suc i) shards (omega arith))
      (ap (λ c. some c ∷ cells_of arrivals j (suc i) shards) (some-injective e))
cells_of-set arrivals j i (suc k) (s ∷ shards) shard e =
    let off : (j == j && (i + suc k) == i) ≡ false = ground (arith, ==_iff (i + suc k) i) in
    let index : i + suc k ≡ suc i + k = omega arith in
    rw (off) (
      ap (λ cells. (if arrived arrivals j i then some s else none) ∷ cells)
        (ap (λ n. cells_of ((j, n) ∷ arrivals) j (suc i) shards) index
          ∙ cells_of-set arrivals j (suc i) k shards shard e))

module _ (total : ℕ) (full : ℕ → List Bytes) where
  -- Every block holds the shards that have arrived, and no others.
  abbrev pub IsStored : Arrivals → Blocks → Type 0
  IsStored arrivals blocks =
      (j : ℕ) → cells_or_new total (lookup j blocks) ≡ cells_of arrivals j 0 (full j)

  pub none-IsStored : ((j : ℕ) → length (full j) ≡ total) → IsStored [] []
  none-IsStored size j =
      ap (λ n. replicate n none) (sym (size j)) ∙ sym (cells_of_empty j 0 (full j))

  pub store_shard-IsStored :
      (arrivals : Arrivals) (blocks : Blocks) (b s : ℕ) (shard : Bytes)
      → s < total
      → get_elem? (full b) s ≡ some shard
      → IsStored arrivals blocks
      → IsStored ((b, s) ∷ arrivals) (store_shard total blocks b s shard)
  unfolding store_shard
  store_shard-IsStored arrivals blocks b s shard fits there h j =
      let cells = cells_or_new total (lookup b blocks) in
      let fits' : ltb s total ≡ true = lt→ltb s total fits in
      let put : (if ltb s total then set cells s (some shard) else cells)
          ≡ set cells s (some shard) =
        rw fits' refl in
      elim (Bool-cases (b == j)) [
        | inl same ↦
            let at : b ≡ j = (==_iff b j).0 same in
            subst
              (λ k.
                cells_or_new total (
                  lookup k
                    (insert b (if ltb s total then set cells s (some shard) else cells) blocks))
                ≡ cells_of ((b, s) ∷ arrivals) k 0 (full k))
              at
              (ap (cells_or_new total) (
                  lookup-insert_self b (if ltb s total then set cells s (some shard) else cells)
                    blocks)
                ∙ put
                ∙ ap (λ c. set c s (some shard)) (h b)
                ∙ sym (cells_of-set arrivals b 0 s (full b) shard there)
                ∙ ap (λ n. cells_of ((b, n) ∷ arrivals) b 0 (full b)) zero_add)
        | inr other ↦
            let ne : b ≢ j = λ e. false≢true (sym other ∙ (==_iff b j).1 e) in
            ap (cells_or_new total) (
              lookup-insert_ne b j (if ltb s total then set cells s (some shard) else cells) blocks
                ne)
            ∙ h j
            ∙ sym (cells_of-other arrivals b s j 0 (full j) ne)
      ]
    where
      zero_add : 0 + s ≡ s
      zero_add = omega arith
