-- ===== src/Relay/Fec/Encoder.antt =====
-- src/relay/fec.rs, `FecEncoder`: what the erasure code promises, and `encode` on a full block.
use entrouter_line.Base.{
  ℕ, suc, ◌-◌, ◌≤◌, ◌<◌, ◌≡◌, true, List, [], ◌∷◌, ◌++◌, map, Option, none, some, ok, Bytes, length,
  replicate, arith, All,
}
use entrouter_line.Relay.Fec.{FecConfig, ReedSolomon, encode, total_shards}

-- All shards have length `n`.
abbrev pub Uniform : ℕ → List Bytes → Type 0
Uniform n shards = All (λ s. length s ≡ n) shards

-- The cells that are filled hold the shards of `full`.
abbrev pub IsPart : List (Option Bytes) → List Bytes → Type 0
IsPart [] [] = Unit {0}
IsPart [] (s ∷ full) = ⊥
IsPart (c ∷ got) [] = ⊥
IsPart (none ∷ got) (s ∷ full) = IsPart got full
IsPart (some x ∷ got) (s ∷ full) = (x ≡ s) × IsPart got full

abbrev pub present : List (Option Bytes) → ℕ
present [] = 0
present (none ∷ got) = present got
present (some x ∷ got) = suc (present got)

-- The crate's promise for blocks of `k` data and `p` parity shards: the data shards stay as they
-- are, `p` parity shards follow them, and any `k` shards of a block give back all of it.
pub record Recovers (rs : ReedSolomon) (k p : ℕ) : Type 0 where
  pub accepted : rs.accepts k p ≡ true
  pub parity : List Bytes → List Bytes
  pub encodes :
      (n : ℕ) (block : List Bytes)
      → length block ≡ k
      → 0 < n
      → Uniform n block
      → rs.encode k p (block ++ replicate p (replicate n 0)) ≡ some (block ++ parity block)
  pub parity_length : (block : List Bytes) → length (parity block) ≡ p
  pub restores :
      (n : ℕ) (block : List Bytes) (got : List (Option Bytes))
      → length block ≡ k
      → 0 < n
      → Uniform n block
      → IsPart got (block ++ parity block)
      → k ≤ present got
      → rs.reconstruct k p got ≡ some (map some (block ++ parity block))

-- A full block of equal shards is encoded with no panic, in front of its parity shards.
pub encode-Recovers :
    (rs : ReedSolomon) (c : FecConfig) (n : ℕ) (block : List Bytes)
    (r : Recovers rs c.data_shards c.parity_shards)
    → 0 < length block
    → length block ≡ c.data_shards
    → 0 < n
    → Uniform n block
    → encode rs c block ≡ ok (block ++ r.parity block)
unfolding encode
encode-Recovers rs c n [] r pos full len u = absurd (omega arith)
encode-Recovers rs c n (s ∷ block) r pos full len u =
    let missing : total_shards c - length (s ∷ block) ≡ c.parity_shards = omega arith in
    rw (missing, u.0, r.encodes n (s ∷ block) full len u)
