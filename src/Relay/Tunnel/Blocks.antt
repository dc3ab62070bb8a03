-- ===== src/Relay/Tunnel/Blocks.antt =====
-- src/relay/tunnel.rs, `send_with_fec`: how data is split into shards.
use entrouter_line.Base.{
  concat-append, ℕ, zero, suc, ◌+◌, ◌-◌, ◌*◌, ◌/◌, ◌≤◌, ◌<◌, ◌≡◌, refl, sym, ap, ◌∙◌, false, List,
  [], ◌∷◌, ◌++◌, map, ok, panic, Bytes, length, take, drop, replicate, ◌==◌, arith, All, All-append,
  All-replicate, concat, chunks, chunks_fuel, length-append, length-map, length-replicate,
  length-take, length-drop, append-nil, append_assoc, take_all, drop_all, take-append-drop,
}
use native.Mathlib.Decide.{dec_le}
use native.Mathlib.Nat.{div-add-mod, mod-lt, div-eq_of_lt}
use entrouter_line.Relay.Tunnel.{resize, split_data}

abbrev pub IsZero : ℕ → Type 0
IsZero b = b ≡ 0

length-resize : (n : ℕ) (s : Bytes) → length (resize n s) ≡ n
length-resize n s = omega (
  arith,
  length-append (take n s) (replicate (n - length s) 0),
  length-take n s,
  length-replicate {A = ℕ} (n - length s) 0,
)

sizes : (n : ℕ) (shards : List Bytes) → All (λ s. length s ≡ n) (map (resize n) shards)
sizes n [] = tt
sizes n (s ∷ shards) = (length-resize n s, sizes n shards)

resize_exact : (n : ℕ) (s : Bytes) → length s ≡ n → resize n s ≡ s
resize_exact n s e =
    let none_left : n - length s ≡ 0 = omega arith in
    rw (take_all s n (omega arith), none_left, append-nil)

chunks_nil : (fuel n : ℕ) → chunks_fuel {A = ℕ} fuel n [] ≡ []
chunks_nil zero n = refl
chunks_nil (suc fuel) n = refl

-- The padded chunks are the data and zeros.
padded :
    (fuel n : ℕ) (xs : Bytes)
    → 0 < n
    → length xs ≤ fuel
    → (rest : Bytes) × (concat (map (resize n) (chunks_fuel fuel n xs)) ≡ xs ++ rest)
      × All IsZero rest
padded zero n [] pos h = ([], refl, tt)
padded zero n (x ∷ xs) pos h = absurd (omega arith)
padded (suc fuel) n [] pos h = ([], refl, tt)
padded (suc fuel) n (x ∷ xs) pos h = elim (dec_le n (length (x ∷ xs))) [
  | yes full ↦
      let (rest, e, z) =
        padded fuel n (drop n (x ∷ xs)) pos (omega (arith, length-drop n (x ∷ xs))) in
      let first : resize n (take n (x ∷ xs)) ≡ take n (x ∷ xs) =
        resize_exact n (take n (x ∷ xs)) (omega (arith, length-take n (x ∷ xs))) in
      (
        rest,
        ap (λ t. t ++ concat (map (resize n) (chunks_fuel fuel n (drop n (x ∷ xs))))) first
            ∙ ap (λ t. take n (x ∷ xs) ++ t) e
            ∙ sym (append_assoc (take n (x ∷ xs)) (drop n (x ∷ xs)) rest)
            ∙ ap (λ t. t ++ rest) (take-append-drop n (x ∷ xs)),
        z,
      )
  | no part ↦
      let whole : take n (x ∷ xs) ≡ x ∷ xs = take_all (x ∷ xs) n (omega arith) in
      let last : drop n (x ∷ xs) ≡ [] = drop_all (x ∷ xs) n (omega arith) in
      let zeros : Bytes = replicate (n - length (x ∷ xs)) 0 in
      (
        zeros,
        ap (λ t. resize n t ++ concat (map (resize n) (chunks_fuel fuel n (drop n (x ∷ xs))))) whole
            ∙ ap (λ t. resize n (x ∷ xs) ++ concat (map (resize n) (chunks_fuel fuel n t))) last
            ∙ ap (λ t. resize n (x ∷ xs) ++ concat (map (resize n) t)) (chunks_nil fuel n)
            ∙ append-nil (resize n (x ∷ xs))
            ∙ ap (λ t. t ++ zeros) whole,
        All-replicate IsZero (n - length (x ∷ xs)) 0 refl,
      )
]

count_chunks :
    (fuel n m : ℕ) (xs : Bytes) → 0 < n → length xs ≤ n * m → length (chunks_fuel fuel n xs) ≤ m
count_chunks zero n m xs pos h = omega arith
count_chunks (suc fuel) n m [] pos h = omega arith
count_chunks (suc fuel) n zero (x ∷ xs) pos h = absurd (omega arith)
count_chunks (suc fuel) n (suc m) (x ∷ xs) pos h =
    omega
      (arith, count_chunks fuel n m (drop n (x ∷ xs)) pos (omega (arith, length-drop n (x ∷ xs))))

concat-zeros : (m n : ℕ) → All IsZero (concat (replicate m (replicate n 0)))
concat-zeros zero n = tt
concat-zeros (suc m) n = All-append IsZero _ _ (All-replicate IsZero n 0 refl) (concat-zeros m n)

-- `div_ceil`.
div_ceil_wide : (l k : ℕ) → 0 < k → l ≤ (l + k - 1) / k * k
div_ceil_wide l k pos = omega (arith, div-add-mod (l + k - 1) k, mod-lt (l + k - 1) pos)

pub div_ceil_pos : (l k : ℕ) → 0 < k → 0 < l → 0 < (l + k - 1) / k
div_ceil_pos l k pos some_data = grind (arith, div_ceil_wide l k pos)

div_ceil_zero : (k : ℕ) → 0 < k → (0 + k - 1) / k ≡ 0
div_ceil_zero k pos = div-eq_of_lt (omega arith)

count : (n k : ℕ) (xs : Bytes) → 0 < n → length xs ≤ n * k → length (chunks n xs) ≤ k
unfolding chunks
count n k xs pos wide = count_chunks (length xs) n k xs pos wide

padded_chunks :
    (n : ℕ) (xs : Bytes)
    → 0 < n
    → (rest : Bytes) × (concat (map (resize n) (chunks n xs)) ≡ xs ++ rest) × All IsZero rest
unfolding chunks
padded_chunks n xs pos = padded (length xs) n xs pos (omega arith)

==_zero : (n : ℕ) → 0 < n → n == 0 ≡ false
==_zero n h = ground arith

-- For `k > 0` data shards: data that is not empty is split into exactly `k` shards of one length,
-- which hold it in order, followed by zeros alone. Empty data panics.
pub split_data-whole :
    (k : ℕ) (payload : Bytes)
    → 0 < k
    → (0 < length payload
        → (shards : List Bytes) × (rest : Bytes) × (split_data k payload ≡ ok shards)
          × (length shards ≡ k)
          × All (λ s. length s ≡ (length payload + k - 1) / k) shards
          × (concat shards ≡ payload ++ rest)
          × All IsZero rest)
      × (length payload ≡ 0 → split_data k payload ≡ panic)
unfolding split_data
split_data-whole k payload pos = (
  λ some_data.
      let n = (length payload + k - 1) / k in
      let n_pos : 0 < n = div_ceil_pos (length payload) k pos some_data in
      let wide : length payload ≤ n * k = div_ceil_wide (length payload) k pos in
      let parts : List Bytes = map (resize n) (chunks n payload) in
      let zeros : List Bytes = replicate (k - length parts) (replicate n 0) in
      let few : length parts ≤ k =
        omega (arith, length-map (resize n) (chunks n payload), count n k payload n_pos wide) in
      let (rest, e, z) = padded_chunks n payload n_pos in
      (
        parts ++ zeros,
        rest ++ concat zeros,
        rw (==_zero n n_pos),
        omega (
          arith,
          few,
          length-append parts zeros,
          length-replicate {A = Bytes} (k - length parts) (replicate n 0),
        ),
        All-append _ parts zeros (sizes n (chunks n payload))
            (All-replicate _ (k - length parts) (replicate n 0) (length-replicate n 0)),
        concat-append parts zeros
            ∙ ap (λ t. t ++ concat zeros) e
            ∙ append_assoc payload rest (concat zeros),
        All-append IsZero rest (concat zeros) z (concat-zeros (k - length parts) n),
      ),
  λ no_data.
      let n : (length payload + k - 1) / k ≡ 0 =
        ap (λ l. (l + k - 1) / k) no_data ∙ div_ceil_zero k pos in
      rw n,
)
