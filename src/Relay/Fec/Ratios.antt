-- ===== src/Relay/Fec/Ratios.antt =====
-- src/relay/fec.rs, `FecConfig::for_loss_rate`.
use entrouter_line.Base.{ℕ, ◌*◌, ◌≤◌, ◌<◌, ◌≡◌, true, arith, ltb→lt, lt→ltb}
use native.Mathlib.Nat.{mul-lt-mul_of_pos_right, lt_of_mul-lt-mul_right}
use entrouter_line.Relay.Fec.{Ratio, below, for_loss_rate, overhead, total_shards}

-- `a / b ≤ c / d`.
abbrev pub AtMost : Ratio → Ratio → Type 0
AtMost l m = l.num * m.den ≤ m.num * l.den

below_mono : (l m : Ratio) (t : ℕ) → 0 < l.den → AtMost l m → below m t ≡ true → below l t ≡ true
below_mono l m t pos le h =
    let fine : m.num * 1000 * l.den < t * m.den * l.den =
      mul-lt-mul_of_pos_right (ltb→lt (m.num * 1000) (t * m.den) h) pos in
    lt→ltb (l.num * 1000) (t * l.den) (lt_of_mul-lt-mul_right m.den (omega arith))

-- A higher loss rate never lowers the overhead.
pub overhead_mono :
    (l m : Ratio)
    → 0 < l.den
    → AtMost l m
    → AtMost (overhead (for_loss_rate l)) (overhead (for_loss_rate m))
unfolding for_loss_rate
overhead_mono l m pos le = ground (
  arith,
  below_mono l m 5 pos le,
  below_mono l m 10 pos le,
  below_mono l m 30 pos le,
  below_mono l m 50 pos le,
)

-- Below a loss of 5 % the parity shards are a larger share of the block than the loss rate.
pub parity_exceeds_loss :
    (l : Ratio)
    → l.num * 1000 < 50 * l.den
    → let c = for_loss_rate l in l.num * total_shards c < c.parity_shards * l.den
unfolding for_loss_rate
parity_exceeds_loss l h = ground arith
