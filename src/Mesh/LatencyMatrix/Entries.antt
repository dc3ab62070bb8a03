-- ===== src/Mesh/LatencyMatrix/Entries.antt =====
-- src/mesh/latency_matrix.rs: what updates do to the entries.
use entrouter_line.Base.{
  ℕ, ◌-◌, ◌%◌, ◌^◌, ◌≤◌, All, length, arith, List, Option, ◌≡◌, ◌≢◌, refl, sym, ◌∙◌, inl, inr, [],
  ◌∷◌, none, some, Bytes, lookup, insert, Bool-cases, lookup-insert_ne, lookup-insert, pair_eq,
  if◌then◌else◌, bytes_eq, ◌&&◌,
}
use mathlib.Core.Bool.{false≢true}
use mathlib.Core.Path.{subst}
use entrouter_line.Mesh.LatencyMatrix.{
  LatencyMatrix, LatencyEntry, entry_after, update, get_entry, as_micros, refresh, smooth,
}

-- No pair of nodes has two entries, as in a hash map.
unfoldable pub IsDistinct : LatencyMatrix → Type 0
IsDistinct [] = Unit
IsDistinct ((k, e) ∷ m) = (lookup k m ≡ none) × IsDistinct m

pub no_entries : IsDistinct []
unfolding IsDistinct
no_entries = tt

insert-IsDistinct :
    (k : Bytes × Bytes) (e : LatencyEntry) (m : LatencyMatrix)
    → IsDistinct m
    → IsDistinct (insert k e m)
unfolding IsDistinct
insert-IsDistinct k e [] h = (refl, tt)
insert-IsDistinct k e ((j, w) ∷ m) (new, h) = elim (Bool-cases (pair_eq.beq j k)) [
  | inl same ↦
      let at : j ≡ k = (pair_eq.beq_iff j k).0 same in
      rw same (subst (λ (i : Bytes × Bytes). lookup i m ≡ none) at new, h)
  | inr other ↦
      let apart : k ≢ j = λ q. false≢true (sym other ∙ (pair_eq.beq_iff j k).1 (sym q)) in
      rw other (lookup-insert_ne k j e m apart ∙ new, insert-IsDistinct k e m h)
]

pub update-IsDistinct :
    (now : ℕ) (m : LatencyMatrix) (from to : Bytes) (rtt : ℕ)
    → IsDistinct m
    → IsDistinct (update now m from to rtt)
unfolding update
update-IsDistinct now m from to rtt h =
    insert-IsDistinct (from, to) (entry_after now rtt (lookup (from, to) m)) m h

-- A measurement: its time, its pair of nodes, and the round-trip time.
pub record Measurement : Type 0 where
  pub now : ℕ
  pub from : Bytes
  pub to : Bytes
  pub rtt : ℕ

-- The matrix after measurements, the last of them first.
unfoldable pub updated : List Measurement → LatencyMatrix
updated [] = []
updated (x ∷ xs) = update x.now (updated xs) x.from x.to x.rtt

abbrev pub of_pair : Bytes → Bytes → List Measurement → List Measurement
of_pair from to [] = []
of_pair from to (x ∷ xs) =
    if bytes_eq x.from from && bytes_eq x.to to then x ∷ of_pair from to xs else of_pair from to xs

abbrev pub IsWithin : ℕ → ℕ → ℕ → Type 0
IsWithin lo hi us = (lo ≤ us) × (us ≤ hi)

-- What the measurements of a pair leave behind.
pub record IsEntry (lo hi : ℕ) (x : Measurement) (count : ℕ) (e : LatencyEntry) : Type 0 where
  pub counted : e.samples ≡ count % 2 ^ 64
  pub dated : e.last_updated ≡ x.now
  pub average : IsWithin lo hi (as_micros e.smoothed_rtt)
  pub spread : as_micros e.jitter ≤ hi - lo

abbrev pub Summarizes : ℕ → ℕ → List Measurement → Option LatencyEntry → Type 0
Summarizes lo hi [] o = o ≡ none
Summarizes lo hi (x ∷ xs) o =
    (e : LatencyEntry) × (o ≡ some e) × IsEntry lo hi x (length (x ∷ xs)) e

entry_after-Summarizes :
    (lo hi : ℕ) (x : Measurement) (xs : List Measurement) (o : Option LatencyEntry)
    → IsWithin lo hi (as_micros x.rtt)
    → Summarizes lo hi xs o
    → IsEntry lo hi x (length (x ∷ xs)) (entry_after x.now x.rtt o)
unfolding entry_after refresh smooth
entry_after-Summarizes lo hi x [] o new none_yet =
    rw none_yet (record { counted = refl; dated = refl; average = new; spread = omega arith })
entry_after-Summarizes lo hi x (y ∷ ys) o new (e, there, h) = rw there (record {
  counted = omega (arith, h.counted);
  dated = refl;
  average = (omega (arith, h.average, new), omega (arith, h.average, new));
  spread = omega (arith, h.average, new, h.spread);
})

-- After any measurements, an entry stands for a pair exactly if the pair was measured. It counts the
-- measurements of its pair, modulo 2 ^ 64, and has the time of the last. Whatever range all of them
-- keep to, in whole microseconds: the smoothed time keeps to it as well, and the jitter is no more than
-- its width.
pub get_entry-updated :
    (xs : List Measurement) (from to : Bytes) (lo hi : ℕ)
    → All (λ x. IsWithin lo hi (as_micros x.rtt)) (of_pair from to xs)
    → Summarizes lo hi (of_pair from to xs) (get_entry (updated xs) from to)
unfolding updated update
get_entry-updated [] from to lo hi h = refl
get_entry-updated (x ∷ xs) from to lo hi h =
    let o = get_entry (updated xs) x.from x.to in
    let e = entry_after x.now x.rtt o in
    let read = lookup-insert (x.from, x.to) (from, to) e (updated xs) in
    elim (Bool-cases (bytes_eq x.from from && bytes_eq x.to to)) [
      | inl same ↦
          let at : (x.from, x.to) ≡ (from, to) =
            (pair_eq.beq_iff (x.from, x.to) (from, to)).0 same in
          let (new, old) =
            subst
              (λ t.
                All (λ y. IsWithin lo hi (as_micros y.rtt))
                  (if t then x ∷ of_pair from to xs else of_pair from to xs))
              same h in
          let before = get_entry-updated xs from to lo hi old in
          rw (same, read, same)
            (
              e,
              refl,
              entry_after-Summarizes lo hi x (of_pair from to xs) o new (
                  subst
                    (λ (k : Bytes × Bytes).
                      Summarizes lo hi (of_pair from to xs) (lookup k (updated xs)))
                    (sym at) before),
            )
      | inr other ↦
          let old =
            subst
              (λ t.
                All (λ y. IsWithin lo hi (as_micros y.rtt))
                  (if t then x ∷ of_pair from to xs else of_pair from to xs))
              other h in
          rw (other, read, other) (get_entry-updated xs from to lo hi old)
    ]
