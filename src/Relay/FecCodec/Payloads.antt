-- ===== src/Relay/FecCodec/Payloads.antt =====
-- src/relay/fec_codec.rs, `PendingBlock::reconstruct`: the payloads of a complete block.
use entrouter_line.Base.{
  ℕ, zero, suc, ◌+◌, ◌-◌, ◌/◌, ◌%◌, ◌^◌, ◌≤◌, ◌<◌, ◌≡◌, refl, ap, ◌∙◌, List, [], ◌∷◌, ◌++◌, map,
  some, Run, ok, panic, ◌>>=◌, Bytes, from_le, from_le-to_le, length, length-append, arith,
  replicate, All, take_all, take-append_length, append_assoc, append-nil,
}
use entrouter_line.Relay.Fec.{FecConfig}
use entrouter_line.Relay.FecCodec.Sender.{shard_len, shard_len_pos}
use entrouter_line.Relay.FecCodec.{prefixed, max_len, resize, data_block, payload_of, collect}

-- A payload that the length prefix can tell from padding: not empty, and below 2 ^ 16 bytes.
abbrev pub IsPayload : Bytes → Type 0
IsPayload p = (0 < length p) × (length p < 2 ^ 16)

payload_of-prefix :
    (a b : ℕ) (p zeros : Bytes)
    → from_le (a ∷ b ∷ []) ≡ length p
    → 0 < length p
    → payload_of (some (a ∷ b ∷ (p ++ zeros))) ≡ p ∷ []
unfolding payload_of
payload_of-prefix a b p zeros e pos =
    rw e (ground (arith, length-append p zeros, take-append_length p zeros))

payload_of-resize :
    (n : ℕ) (p : Bytes)
    → IsPayload p
    → length (prefixed p) ≤ n
    → payload_of (some (resize n (prefixed p))) ≡ p ∷ []
payload_of-resize n p (pos, small) fits =
    let len = length p % 2 ^ 16 in
    rw (take_all (prefixed p) n fits) (
      payload_of-prefix (len % 256) (len / 256 % 256) p (replicate (n - length (prefixed p)) 0)
        (from_le-to_le 2 len (omega arith) ∙ omega arith) pos)

payload_of-zeros : (n : ℕ) → 2 ≤ n → payload_of (some (replicate n 0)) ≡ []
unfolding payload_of
payload_of-zeros zero h = absurd (omega arith)
payload_of-zeros (suc zero) h = absurd (omega arith)
payload_of-zeros (suc (suc n)) h = ground arith

max_len-le :
    (p : Bytes) (buffer : List Bytes) → length (prefixed p) ≤ max_len (map prefixed (p ∷ buffer))
max_len-le p buffer = omega arith

bind_ok : (more : Run (List Bytes)) → more ≡ (more >>= λ m. ok m)
bind_ok (ok m) = refl
bind_ok panic = refl

push_payload :
    (more : Run (List Bytes)) (p : Bytes) (buffer : List Bytes)
    → ((more >>= λ m. ok (buffer ++ m)) >>= λ m. ok (p ∷ m))
      ≡ (more >>= λ m. ok (p ∷ (buffer ++ m)))
push_payload (ok m) p buffer = refl
push_payload panic p buffer = refl

collect-payloads :
    (n m : ℕ) (buffer rest : List Bytes)
    → All IsPayload buffer
    → max_len (map prefixed buffer) ≤ n
    → collect (length buffer + m) (map some (map (resize n) (map prefixed buffer) ++ rest))
      ≡ (collect m (map some rest) >>= λ more. ok (buffer ++ more))
unfolding collect
collect-payloads n m [] rest good fits =
    let e : 0 + m ≡ m = omega arith in rw e (bind_ok (collect m (map some rest)))
collect-payloads n m (p ∷ buffer) rest good fits =
    let e : suc (length buffer) + m ≡ suc (length buffer + m) = omega arith in
    let here = payload_of-resize n p good.0 (omega (arith, fits)) in
    let later = collect-payloads n m buffer rest good.1 (omega (arith, fits)) in
    rw (e, here, later) (push_payload (collect m (map some rest)) p buffer)

collect-zeros :
    (n m : ℕ) (rest : List Bytes)
    → 2 ≤ n
    → collect m (map some (replicate m (replicate n 0) ++ rest)) ≡ ok []
unfolding collect
collect-zeros n zero rest h = refl
collect-zeros n (suc m) rest h = rw (collect-zeros n m rest h, payload_of-zeros n h)

max_len_or-le : (buffer : List Bytes) → max_len (map prefixed buffer) ≤ shard_len buffer
max_len_or-le [] = omega arith
max_len_or-le (p ∷ buffer) = omega arith

-- The data shards of a block give back the payloads that it was made from, in their order.
pub collect-data_block :
    (c : FecConfig) (buffer parity : List Bytes)
    → All IsPayload buffer
    → length buffer ≤ c.data_shards
    → collect c.data_shards (map some (data_block c buffer ++ parity)) ≡ ok buffer
unfolding data_block
collect-data_block c buffer parity good fits =
    let n = shard_len buffer in
    let m = c.data_shards - length buffer in
    let zeros : List Bytes = replicate m (replicate n 0) in
    let e : c.data_shards ≡ length buffer + m = omega arith in
    let shards : List Bytes = map (resize n) (map prefixed buffer) in
    let whole =
      collect-payloads n m buffer (zeros ++ parity) good (max_len_or-le buffer)
      ∙ rw (collect-zeros n m parity (shard_len_pos buffer), append-nil) in
    ap (λ t. collect t (map some ((shards ++ zeros) ++ parity))) e
    ∙ rw (append_assoc shards zeros parity) whole
