-- ===== src/Relay/Fec.antt =====
-- src/relay/fec.rs: the choice of a parity ratio, the block encoder, and the loss window.
-- A loss rate, an `f64` in the source, is the fraction of two counters that it is computed from.
pub mod Window
pub mod Encoder
pub mod Ratios
mod Tests
use entrouter_line.Base.{
  ℕ, ◌+◌, ◌-◌, ◌*◌, ◌%◌, ◌≡◌, Bool, true, false, List, [], ◌∷◌, ◌++◌, Option, none, some, Run, ok,
  panic, ◌>>=◌, ◌>>◌, expect, assert, Bytes, length, get_elem?, set, replicate, ltb, leb, ◌==◌,
  if◌then◌else◌,
}

pub record FecConfig : Type 0 where
  pub data_shards : ℕ
  pub parity_shards : ℕ

pub record Ratio : Type 0 where
  pub num : ℕ
  pub den : ℕ

-- `l < t / 1000`. With a denominator of 0 the rate is NaN or infinite, and no test passes.
abbrev pub below : Ratio → ℕ → Bool
below l t = ltb (l.num * 1000) (t * l.den)

unfoldable pub for_loss_rate : Ratio → FecConfig
for_loss_rate l =
    if below l 5
    then record { data_shards = 20; parity_shards = 1 }
    else if below l 10
    then record { data_shards = 10; parity_shards = 2 }
    else if below l 30
    then record { data_shards = 10; parity_shards = 4 }
    else if below l 50
    then record { data_shards = 8; parity_shards = 4 }
    else record { data_shards = 6; parity_shards = 4 }

abbrev pub total_shards : FecConfig → ℕ
total_shards c = c.data_shards + c.parity_shards

abbrev pub overhead : FecConfig → Ratio
overhead c = record { num = c.parity_shards; den = c.data_shards }

-- `true` in the window is a packet that was received.
pub record LossTracker : Type 0 where
  pub window : List Bool
  pub pos : ℕ
  pub count : ℕ

unfoldable pub new : ℕ → LossTracker
new window_size = record { window = replicate window_size true; pos = 0; count = 0 }

-- The subtraction saturates; an empty window or a position past its end panics.
unfoldable pub record_packet : LossTracker → Bool → Run LossTracker
record_packet t received = do
  old ← expect (get_elem? t.window t.pos)
  let freed = if old then t.count else t.count - 1
  let counted = if received then freed else freed + 1
  let window = set t.window t.pos received
  ok (record { window = window; pos = (t.pos + 1) % length window; count = counted })

abbrev pub loss_rate : LossTracker → Ratio
loss_rate t = record { num = t.count; den = length t.window }

unfoldable pub recommended_config : LossTracker → FecConfig
unfolding for_loss_rate
recommended_config t = for_loss_rate (loss_rate t)

pub data FecError : Type 0 where
  too_many_lost : FecError

-- The crate `reed_solomon_erasure`, `galois_8`: `none` is its error.
-- `reconstruct` fills the missing shards of the slice that it is given.
pub record ReedSolomon : Type 0 where
  pub accepts : ℕ → ℕ → Bool
  pub encode : ℕ → ℕ → List Bytes → Option (List Bytes)
  pub reconstruct : ℕ → ℕ → List (Option Bytes) → Option (List (Option Bytes))

module _ (rs : ReedSolomon) where
  -- `FecEncoder::new`, which keeps only the configuration.
  unfoldable pub new_encoder : FecConfig → Run FecConfig
  new_encoder c = do assert (rs.accepts c.data_shards c.parity_shards); ok c

  -- The `while` loop of `encode`, for the number of shards that are missing.
  abbrev pub pad_shards : ℕ → Bytes → List Bytes → List Bytes
  pad_shards n zeros shards = shards ++ replicate n zeros

  -- `shards[0]` panics on an empty block.
  unfoldable pub encode : FecConfig → List Bytes → Run (List Bytes)
  encode c shards = do
    first ← expect (get_elem? shards 0)
    expect (
        rs.encode c.data_shards c.parity_shards
          (pad_shards (total_shards c - length shards) (replicate (length first) 0) shards))

  unfoldable pub reconstruct : FecConfig → List (Option Bytes) → Option (List (Option Bytes))
  reconstruct c shards = rs.reconstruct c.data_shards c.parity_shards shards
