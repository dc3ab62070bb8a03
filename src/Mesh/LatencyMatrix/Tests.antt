-- ===== src/Mesh/LatencyMatrix/Tests.antt =====
-- The theorems on src/mesh/latency_matrix.rs at inputs.
use entrouter_line.Base.{List, arith, ◌-◌, ◌≤◌, ◌≡◌, max, [], ◌∷◌, Bytes}
use entrouter_line.Mesh.LatencyMatrix.{LatencyMatrix, fresh_entry, get_entry, abs_diff}
use entrouter_line.Mesh.LatencyMatrix.Average.{smooth_times, smooth_times_settles}
use entrouter_line.Mesh.LatencyMatrix.Entries.{
  Measurement, updated, of_pair, Summarizes, get_entry-updated,
}

smooth_times_settles_example :
    (abs_diff (smooth_times 40 130 100) 100 ≤ max 7 (abs_diff 130 100 - 40))
    × (100 ≤ 130 → 130 - 100 ≤ 40 → smooth_times 40 130 100 ≡ 100)
smooth_times_settles_example = smooth_times_settles 40 130 100

abbrev a : Bytes
a = 97 ∷ []

abbrev b : Bytes
b = 98 ∷ []

abbrev one_path : LatencyMatrix
one_path = ((a, b), fresh_entry 0 5000) ∷ []

-- Two measurements of one pair, and one of the other direction between them.
abbrev measured : List Measurement
measured =
    (record { now = 9; from = a; to = b; rtt = 7_000_000 })
    ∷ (record { now = 5; from = b; to = a; rtt = 90_000_000 })
    ∷ (record { now = 2; from = a; to = b; rtt = 5_000_500 })
    ∷ []

get_entry-updated_example :
    Summarizes 5000 7000 (of_pair a b measured) (get_entry (updated measured) a b)
get_entry-updated_example = get_entry-updated measured a b 5000 7000 (omega arith)
