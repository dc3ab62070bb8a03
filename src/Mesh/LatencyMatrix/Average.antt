-- ===== src/Mesh/LatencyMatrix/Average.antt =====
-- src/mesh/latency_matrix.rs: the weighted average of the round-trip times.
use entrouter_line.Base.{ℕ, zero, suc, ◌+◌, ◌-◌, ◌/◌, ◌≤◌, ◌≡◌, min, max, arith}
use entrouter_line.Mesh.LatencyMatrix.{smooth, abs_diff}

-- The average lies between the old value and the new sample, and moves towards the sample by an
-- eighth of the way, rounded down.
pub smooth_bounds :
    (old sample : ℕ)
    → (min old sample ≤ smooth old sample)
      × (smooth old sample ≤ max old sample)
      × (old ≤ sample → smooth old sample ≡ old + (sample - old) / 8)
unfolding smooth
smooth_bounds old sample = (omega arith, omega arith, λ h. omega arith)

-- The average after `n` samples of one value.
pub smooth_times : ℕ → ℕ → ℕ → ℕ
smooth_times zero old sample = old
smooth_times (suc n) old sample = smooth_times n (smooth old sample) sample

step_closer :
    (old sample : ℕ) → abs_diff (smooth old sample) sample ≤ max 7 (abs_diff old sample - 1)
unfolding smooth
step_closer old sample = omega arith

step_above :
    (old sample : ℕ)
    → sample ≤ old
    → (sample ≤ smooth old sample) × (smooth old sample - sample ≤ old - sample - 1)
unfolding smooth
step_above old sample h = omega arith

-- Under `n` samples of one value the average comes nearer by a microsecond with each, until it is
-- at most 7 away; from above it arrives at the value itself.
pub smooth_times_settles :
    (n old sample : ℕ)
    → (abs_diff (smooth_times n old sample) sample ≤ max 7 (abs_diff old sample - n))
      × (sample ≤ old → old - sample ≤ n → smooth_times n old sample ≡ sample)
unfolding smooth_times
smooth_times_settles zero old sample = (omega arith, λ h k. omega arith)
smooth_times_settles (suc n) old sample =
    let (near, exact) = smooth_times_settles n (smooth old sample) sample in
    (
      omega (arith, near, step_closer old sample),
      λ h k. let (above, less) = step_above old sample h in exact above (omega (arith, less)),
    )

-- From up to 7 microseconds below, it stays where it is.
smooth_stuck : (old sample : ℕ) → old ≤ sample → sample ≤ old + 7 → smooth old sample ≡ old
unfolding smooth
smooth_stuck old sample h k = omega arith
