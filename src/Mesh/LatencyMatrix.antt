-- ===== src/Mesh/LatencyMatrix.antt =====
-- src/mesh/latency_matrix.rs: smoothed round-trip times between pairs of nodes.
-- A `Duration` and an `Instant` are numbers of nanoseconds. The averages, which the source takes in
-- `f64`, are exact there for times below 2 ^ 50 microseconds (35 years): then all products by
-- 0.125 and 0.875 and their sums have at most 53 bits, and the cast to `u64` drops the fraction.
pub mod Average
pub mod Entries
mod Tests
use entrouter_line.Base.{
  ℕ, ◌+◌, ◌-◌, ◌*◌, ◌/◌, ◌%◌, ◌^◌, ◌≡◌, Bool, List, [], ◌∷◌, ◌++◌, map, Option, none, some, Bytes,
  lookup, insert, pair_eq, bytes_eq, length, if◌then◌else◌, ◌||◌,
}
use mathlib.Core.Option

pub record LatencyEntry : Type 0 where
  pub smoothed_rtt : ℕ
  pub jitter : ℕ
  pub last_updated : ℕ
  pub samples : ℕ

abbrev pub LatencyMatrix : Type 0
LatencyMatrix = List ((Bytes × Bytes) × LatencyEntry)

abbrev pub new : LatencyMatrix
new = []

abbrev pub as_micros : ℕ → ℕ
as_micros d = d / 1000

abbrev pub from_micros : ℕ → ℕ
from_micros us = us * 1000

-- `old * 0.875 + new * 0.125`, cast to an integer.
unfoldable pub smooth : ℕ → ℕ → ℕ
smooth old_us new_us = (7 * old_us + new_us) / 8

-- `(new - old).abs()`.
abbrev pub abs_diff : ℕ → ℕ → ℕ
abs_diff a b = (a - b) + (b - a)

unfoldable pub refresh : ℕ → ℕ → LatencyEntry → LatencyEntry
refresh now rtt e =
    let rtt_us = as_micros rtt in
    let old_us = as_micros e.smoothed_rtt in
    record {
      smoothed_rtt = from_micros (smooth old_us rtt_us);
      jitter = from_micros (smooth (as_micros e.jitter) (abs_diff rtt_us old_us));
      last_updated = now;
      samples = (e.samples + 1) % 2 ^ 64;
    }

abbrev pub fresh_entry : ℕ → ℕ → LatencyEntry
fresh_entry now rtt = record { smoothed_rtt = rtt; jitter = 0; last_updated = now; samples = 1 }

-- `and_modify(..).or_insert_with(..)`.
unfoldable pub entry_after : ℕ → ℕ → Option LatencyEntry → LatencyEntry
unfolding refresh
entry_after now rtt none = fresh_entry now rtt
entry_after now rtt (some e) = refresh now rtt e

unfoldable pub update : ℕ → LatencyMatrix → Bytes → Bytes → ℕ → LatencyMatrix
update now m from to rtt = insert (from, to) (entry_after now rtt (lookup (from, to) m)) m

abbrev pub get_entry : LatencyMatrix → Bytes → Bytes → Option LatencyEntry
get_entry m from to = lookup (from, to) m

abbrev pub rtt_of : Option LatencyEntry → Option ℕ
rtt_of none = none
rtt_of (some e) = some e.smoothed_rtt

abbrev pub get_rtt : LatencyMatrix → Bytes → Bytes → Option ℕ
get_rtt m from to = rtt_of (get_entry m from to)

abbrev pub Edge : Type 0
Edge = Bytes × Bytes × ℕ

unfoldable pub all_edges : LatencyMatrix → List Edge
all_edges [] = []
all_edges (((from, to), e) ∷ m) = (from, to, e.smoothed_rtt) ∷ all_edges m

-- A hash set of names, as a list with no name twice.
abbrev pub contains : Bytes → List Bytes → Bool
contains n [] = Bool.false
contains n (x ∷ xs) = bytes_eq x n || contains n xs

abbrev pub add_name : Bytes → List Bytes → List Bytes
add_name n xs = if contains n xs then xs else xs ++ n ∷ []

unfoldable pub collect_nodes : List Bytes → LatencyMatrix → List Bytes
collect_nodes seen [] = seen
collect_nodes seen (((from, to), e) ∷ m) = collect_nodes (add_name to (add_name from seen)) m

abbrev pub nodes : LatencyMatrix → List Bytes
nodes m = collect_nodes [] m

abbrev pub path_count : LatencyMatrix → ℕ
path_count m = length m
