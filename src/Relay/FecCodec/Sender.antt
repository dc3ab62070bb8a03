-- ===== src/Relay/FecCodec/Sender.antt =====
-- src/relay/fec_codec.rs, `FecSender`: when a block goes out, and what it consists of.
use entrouter_line.Base.{
  ℕ, suc, ◌+◌, ◌-◌, ◌%◌, ◌^◌, ◌≤◌, ◌<◌, ◌≡◌, refl, List, [], ◌∷◌, ◌++◌, map, none, some, ok, Bytes,
  to_le, length, length-append, length-take, length-replicate, length-map, take, arith, replicate,
  max, take_all, append-nil, ap, ◌∙◌, All-append, All-replicate, le→leb, lt→leb,
}
use entrouter_line.Relay.Fec.{FecConfig, ReedSolomon, new_encoder}
use entrouter_line.Relay.Fec.Encoder.{Uniform, Recovers, encode-Recovers}
use entrouter_line.Relay.FecCodec.Header.{shard_header, header_at, type_at, frame_shard-header_at}
use entrouter_line.Relay.FecCodec.{
  FecSender, prefixed, max_len, max_len_or, resize, frame_shards, data_block, flush, submit,
}

-- The frames of a list of shards, numbered from `i` on.
abbrev pub framing : FecConfig → ℕ → ℕ → List Bytes → List (ℕ × Bytes)
framing c block_id i [] = []
framing c block_id i (s ∷ shards) =
    (type_at c i, shard_header (header_at c block_id i s) ++ s) ∷ framing c block_id (suc i) shards

frame_shards-framing :
    (c : FecConfig) (block_id i : ℕ) (shards : List Bytes)
    → frame_shards c block_id i shards ≡ ok (framing c block_id i shards)
unfolding frame_shards
frame_shards-framing c block_id i [] = refl
frame_shards-framing c block_id i (s ∷ shards) =
    rw (frame_shard-header_at c block_id i s, frame_shards-framing c block_id (suc i) shards)

pub length-resize : (n : ℕ) (s : Bytes) → length (resize n s) ≡ n
length-resize n s = omega (
  arith,
  length-append (take n s) (replicate (n - length s) 0),
  length-take n s,
  length-replicate {A = ℕ} (n - length s) 0,
)

resize-Uniform : (n : ℕ) (shards : List Bytes) → Uniform n (map (resize n) shards)
resize-Uniform n [] = tt
resize-Uniform n (s ∷ shards) = (length-resize n s, resize-Uniform n shards)

-- The length of the shards of a block.
abbrev pub shard_len : List Bytes → ℕ
shard_len buffer = max_len_or 2 (map prefixed buffer)

pub shard_len_pos : (buffer : List Bytes) → 2 ≤ shard_len buffer
shard_len_pos [] = omega arith
shard_len_pos (p ∷ buffer) = omega (arith, length-append (to_le 2 (length p % 2 ^ 16)) p)

pub data_block-Uniform :
    (c : FecConfig) (buffer : List Bytes) → Uniform (shard_len buffer) (data_block c buffer)
unfolding data_block
data_block-Uniform c buffer =
    let n = shard_len buffer in
    All-append _ _ _ (resize-Uniform n (map prefixed buffer))
      (All-replicate _ (c.data_shards - length buffer) _ (length-replicate {A = ℕ} n 0))

pub length-data_block :
    (c : FecConfig) (buffer : List Bytes)
    → length buffer ≤ c.data_shards
    → length (data_block c buffer) ≡ c.data_shards
unfolding data_block
length-data_block c buffer h =
    let n = shard_len buffer in
    omega (
      arith,
      length-append (map (resize n) (map prefixed buffer))
          (replicate (c.data_shards - length buffer) (replicate n 0)),
      length-map (resize n) (map prefixed buffer),
      length-map prefixed buffer,
      length-replicate {A = Bytes} (c.data_shards - length buffer) (replicate n 0),
    )

module _ (rs : ReedSolomon) (s : FecSender)
    (r : Recovers rs s.config.data_shards s.config.parity_shards) where
  -- The shards of the block that a buffer makes: data and parity.
  abbrev pub block_of : List Bytes → List Bytes
  block_of buffer = data_block s.config buffer ++ r.parity (data_block s.config buffer)

  abbrev pub flushed : FecSender
  flushed = record s { block_id = (s.block_id + 1) % 2 ^ 16; buffer = []; payload_lens = [] }

  pub flush-block_of :
      0 < length s.buffer
      → length s.buffer ≤ s.config.data_shards
      → flush rs s ≡ ok (flushed, framing s.config s.block_id 0 (block_of s.buffer))
  unfolding flush new_encoder
  flush-block_of pos fits =
      let size = length-data_block s.config s.buffer fits in
      let coded =
        encode-Recovers rs s.config (shard_len s.buffer) (data_block s.config s.buffer) r
          (omega (arith, size)) size (omega (arith, shard_len_pos s.buffer))
          (data_block-Uniform s.config s.buffer) in
      rw (r.accepted, coded, frame_shards-framing s.config s.block_id 0 (block_of s.buffer))

-- `submit` in terms of the block that is sent.
pub submit-flushed :
    (rs : ReedSolomon) (s : FecSender) (p : Bytes)
    → (r : Recovers rs s.config.data_shards s.config.parity_shards)
    → length s.buffer < s.config.data_shards
    → let buffer = s.buffer ++ p ∷ [] in
      (length buffer < s.config.data_shards
        → (t : FecSender) × (submit rs s p ≡ ok (t, none))
          × (t.buffer ≡ buffer)
          × (t.block_id ≡ s.block_id)
          × (t.config ≡ s.config))
      × (length buffer ≡ s.config.data_shards
          → submit rs s p
            ≡ ok (flushed rs s r, some (framing s.config s.block_id 0 (block_of rs s r buffer))))
unfolding submit
submit-flushed rs s p r open_block =
    let buffer = s.buffer ++ p ∷ [] in
    let s' : FecSender = record s {
      buffer = buffer;
      payload_lens = s.payload_lens ++ (length p % 2 ^ 16) ∷ [];
    } in
    (
      λ more. (s', rw (lt→leb s.config.data_shards (length buffer) more), refl, refl, refl),
      λ full. rw (
        le→leb s.config.data_shards (length buffer) (omega (arith, full)),
        flush-block_of rs s' r (omega arith) (omega (arith, full)),
      ),
    )

-- A payload in a data shard: behind its length, and with zeros up to `n` bytes.
abbrev pub padded : ℕ → Bytes → Bytes
padded n p = to_le 2 (length p % 2 ^ 16) ++ (p ++ replicate (n - length p) 0)

abbrev pub longest : List Bytes → ℕ
longest [] = 0
longest (p ∷ ps) = max (length p) (longest ps)

max_len-longest :
    (p : Bytes) (ps : List Bytes) → max_len (map prefixed (p ∷ ps)) ≡ 2 + longest (p ∷ ps)
max_len-longest p [] = omega (arith, length-append (to_le 2 (length p % 2 ^ 16)) p)
max_len-longest p (q ∷ ps) =
    omega (arith, length-append (to_le 2 (length p % 2 ^ 16)) p, max_len-longest q ps)

resize-padded : (n : ℕ) (p : Bytes) → length p ≤ n → resize (2 + n) (prefixed p) ≡ padded n p
resize-padded n p fits =
    let size = length-append (to_le 2 (length p % 2 ^ 16)) p in
    let zeros : 2 + n - length (prefixed p) ≡ n - length p = omega (arith, size) in
    rw (take_all (prefixed p) (2 + n) (omega (arith, size)), zeros) refl

resized-padded :
    (n : ℕ) (buffer : List Bytes)
    → longest buffer ≤ n
    → map (resize (2 + n)) (map prefixed buffer) ≡ map (padded n) buffer
resized-padded n [] fits = refl
resized-padded n (p ∷ ps) fits =
    rw (resize-padded n p (omega arith), resized-padded n ps (omega arith))

data_block-padded :
    (c : FecConfig) (buffer : List Bytes)
    → 0 < length buffer
    → length buffer ≡ c.data_shards
    → data_block c buffer ≡ map (padded (longest buffer)) buffer
unfolding data_block
data_block-padded c [] pos full = absurd (omega arith)
data_block-padded c (p ∷ ps) pos full =
    let none_missing : c.data_shards - length (p ∷ ps) ≡ 0 = omega arith in
    let n = longest (p ∷ ps) in
    let buffer = p ∷ ps in
    let zeros : ℕ → List Bytes = λ m. replicate (c.data_shards - length buffer) (replicate m 0) in
    ap (λ m. map (resize m) (map prefixed buffer) ++ zeros m) (max_len-longest p ps)
    ∙ ap (λ l. l ++ zeros (2 + n)) (resized-padded n buffer (omega arith))
    ∙ ap (λ k. map (padded n) buffer ++ replicate k (replicate (2 + n) 0)) none_missing
    ∙ append-nil (map (padded n) buffer)

-- `submit` on a sender whose block is not full, over an erasure code that keeps its promise for the
-- sender's configuration: the payload is buffered with nothing sent, or it is the last of its block.
-- Then the block goes out under the sender's number, the buffer empties and the number counts on
-- modulo 2 ^ 16: a data shard for each payload in order, which holds its length, itself and zeros up
-- to the longest, and the parity shards of those, each behind its shard header.
pub submit-padded :
    (rs : ReedSolomon) (s : FecSender) (p : Bytes)
    → (r : Recovers rs s.config.data_shards s.config.parity_shards)
    → length s.buffer < s.config.data_shards
    → let buffer = s.buffer ++ p ∷ [] in
      let block = map (padded (longest buffer)) buffer in
      (length buffer < s.config.data_shards
        → (t : FecSender) × (submit rs s p ≡ ok (t, none))
          × (t.buffer ≡ buffer)
          × (t.block_id ≡ s.block_id)
          × (t.config ≡ s.config))
      × (length buffer ≡ s.config.data_shards
          → submit rs s p
            ≡ ok (
              record s { block_id = (s.block_id + 1) % 2 ^ 16; buffer = []; payload_lens = [] },
              some (framing s.config s.block_id 0 (block ++ r.parity block)),
            ))
submit-padded rs s p r open_block =
    let buffer = s.buffer ++ p ∷ [] in
    let (more, last) = submit-flushed rs s p r open_block in
    (
      more,
      λ full.
          last full
          ∙ ap (λ b. ok (flushed rs s r, some (framing s.config s.block_id 0 (b ++ r.parity b))))
              (data_block-padded s.config buffer (omega (arith, full)) full),
    )
