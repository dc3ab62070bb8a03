-- ===== src/TestHarness/Sending.antt =====
-- src/bin/test_harness.rs: the frames that the sender makes.
use entrouter_line.Base.{
  ℕ, zero, suc, ◌+◌, ◌*◌, ◌%◌, ◌^◌, ◌≤◌, ◌<◌, ◌≡◌, ◌≢◌, refl, sym, ap, ◌∙◌, Bool, true, false, List,
  [], ◌∷◌, ◌++◌, some, ok, Bytes, length, length-append, get_elem?, get_elem?-append,
  get_elem?-append_add, ltb, if◌then◌else◌, arith, All,
}
use mathlib.Core.Path.{subst}
use entrouter_line.Relay.Crypto.{Aead, Seals}
use entrouter_line.Relay.Crypto.Nonce.{decrypt-encrypt}
use entrouter_line.Relay.Fec.{FecConfig, ReedSolomon, new_encoder, total_shards}
use entrouter_line.Relay.Fec.Encoder.{Recovers, Uniform, encode-Recovers}
use entrouter_line.Relay.Tunnel.{build_frame, split_data}
use entrouter_line.Relay.Tunnel.SendReceive.{build_frame-header}
use entrouter_line.Relay.Wire.{packet_data, packet_parity, packet_control}
use entrouter_line.TestHarness.{prefixed, send_shards, send_block, send_blocks}
use entrouter_line.TestHarness.Recovery.{IsFrame, buffer_len, full, length-full}

-- A frame is built for any payload that a cipher takes.
pub build_frame-ok :
    (a : Aead) (key : Bytes) (seq t : ℕ) (payload : Bytes)
    → Seals a
    → length payload ≤ 2 ^ 36
    → (frame : Bytes) × (build_frame a key seq t payload ≡ ok frame)
build_frame-ok a key seq t payload seals small =
    let (c, sealed, size, opens) = decrypt-encrypt a key seq payload seals small in
    (_, build_frame-header a key seq t payload c sealed)

ptype-no_control : (b : Bool) → (if b then packet_data else packet_parity) ≢ packet_control
ptype-no_control true e = omega (arith, e)
ptype-no_control false e = omega (arith, e)

module _ (a : Aead) (rs : ReedSolomon) (key : Bytes) (c : FecConfig) (full : ℕ → List Bytes)
    (seals : Seals a) (few : total_shards c ≤ 2 ^ 16) where
  -- The frames of the shards of block `j` from `i` on.
  send_shards-IsFrame :
      (seq j i : ℕ) (shards : List Bytes)
      → seq < 2 ^ 64
      → j < 2 ^ 32
      → i + length shards ≤ total_shards c
      → All (λ s. length s + 33 ≤ buffer_len) shards
      → ((m : ℕ) (s : Bytes) → get_elem? shards m ≡ some s → get_elem? (full j) (i + m) ≡ some s)
      → (seq' : ℕ) × (frames : List Bytes) × (send_shards a rs key c seq j i shards
          ≡ ok (seq', frames))
        × (seq' < 2 ^ 64)
        × (length frames ≡ length shards)
        × ((m : ℕ)
            → m < length shards
            → (bytes : Bytes) × (get_elem? frames m ≡ some bytes)
              × IsFrame a key c full j (i + m) bytes)
  unfolding send_shards
  send_shards-IsFrame seq j i [] small_s small_j inside fits there =
      (seq, [], refl, small_s, refl, λ m less. absurd (omega arith))
  send_shards-IsFrame seq j i (shard ∷ shards) small_s small_j inside (fit, fits) there =
      let t = if ltb i c.data_shards then packet_data else packet_parity in
      let (frame, built) =
        build_frame-ok a key seq t (prefixed j i shard) seals (omega (arith, fit)) in
      let (seq', frames, run, small', count, each) =
        send_shards-IsFrame ((seq + 1) % 2 ^ 64) j (suc i) shards (omega arith) small_j
          (omega arith) fits
          (λ m s e.
            let index : i + suc m ≡ suc i + m = omega arith in
            subst (λ n. get_elem? (full j) n ≡ some s) index (there (suc m) s e)) in
      let start : i + 0 ≡ i = omega arith in
      (
        seq',
        frame ∷ frames,
        rw (built, run) refl,
        small',
        ap suc count,
        elim [
          | zero ↦ λ less. (
            frame,
            refl,
            subst (λ n. IsFrame a key c full j n frame) (sym start)
                (record {
                  seq = seq;
                  ptype = t;
                  shard = shard;
                  seq_small = small_s;
                  no_control = ptype-no_control (ltb i c.data_shards);
                  block_small = small_j;
                  index_small = omega (arith, inside, few);
                  inside = omega (arith, inside);
                  fits = fit;
                  is_shard =
                      subst (λ n. get_elem? (full j) n ≡ some shard) start (there 0 shard refl);
                  built = built;
                }),
          )
          | suc m ↦ λ less.
              let (bytes, at, is_frame) = each m (omega arith) in
              let index : suc i + m ≡ i + suc m = omega arith in
              (bytes, at, subst (λ n. IsFrame a key c full j n bytes) index is_frame)
        ],
      )

-- Shard `i` of block `j + m` is frame `m * (k + p) + i`.
unfoldable pub AreBlocks : Aead → Bytes → FecConfig → (ℕ → List Bytes) → ℕ → ℕ → List Bytes → Type 0
AreBlocks a key c full j n frames =
    (m i : ℕ)
    → m < n
    → i < total_shards c
    → (bytes : Bytes) × (get_elem? frames (m * total_shards c + i) ≡ some bytes)
      × IsFrame a key c full (j + m) i bytes

module _ (a : Aead) (rs : ReedSolomon) (key : Bytes) (c : FecConfig)
    (code : Recovers rs c.data_shards c.parity_shards) (block : ℕ → List Bytes) (width : ℕ → ℕ)
    (size : (j : ℕ) → length (block j) ≡ c.data_shards) (wide : (j : ℕ) → 0 < width j)
    (uniform : (j : ℕ) → Uniform (width j) (block j)) (seals : Seals a)
    (few : total_shards c ≤ 2 ^ 16) (some_data : 0 < c.data_shards)
    (fits : (j : ℕ) → All (λ s. length s + 33 ≤ buffer_len) (full rs c code block j)) where
  abbrev blocks_full : ℕ → List Bytes
  blocks_full = full rs c code block

  abbrev block_size : (j : ℕ) → length (blocks_full j) ≡ total_shards c
  block_size = length-full rs c code block width size wide uniform

  -- Every frame of block `j` stands in its place.
  AreFrames : ℕ → List Bytes → Type 0
  AreFrames j frames =
      (i : ℕ)
      → i < total_shards c
      → (bytes : Bytes) × (get_elem? frames i ≡ some bytes) × IsFrame a key c blocks_full j i bytes

  send_block-AreFrames :
      (seq j : ℕ) (payload : Bytes)
      → seq < 2 ^ 64
      → j < 2 ^ 32
      → split_data c.data_shards payload ≡ ok (block j)
      → (seq' : ℕ) × (frames : List Bytes) × (send_block a rs key c seq j payload
          ≡ ok (seq', frames))
        × (seq' < 2 ^ 64)
        × (length frames ≡ total_shards c)
        × AreFrames j frames
  unfolding send_block new_encoder AreFrames
  send_block-AreFrames seq j payload small_s small_j split =
      let encoded =
        encode-Recovers rs c (width j) (block j) code (omega (arith, size j, some_data)) (size j)
          (wide j) (uniform j) in
      let (seq', frames, run, small', count, each) =
        send_shards-IsFrame a rs key c blocks_full seals few seq j 0 (blocks_full j) small_s small_j
          (omega (arith, block_size j)) (fits j)
          (λ m s e.
            let index : m ≡ 0 + m = omega arith in
            subst (λ n. get_elem? (blocks_full j) n ≡ some s) index e) in
      (
        seq',
        frames,
        rw (code.accepted, split, encoded) run,
        small',
        count ∙ block_size j,
        λ i less.
            let (bytes, at, is_frame) = each i (omega (arith, less, block_size j)) in
            let index : 0 + i ≡ i = omega arith in
            (bytes, at, subst (λ n. IsFrame a key c blocks_full j n bytes) index is_frame),
      )

  pub send_blocks-AreBlocks :
      (seq j : ℕ) (payloads : List Bytes)
      → seq < 2 ^ 64
      → j + length payloads ≤ 2 ^ 32
      → ((m : ℕ) (p : Bytes)
          → get_elem? payloads m ≡ some p
          → split_data c.data_shards p ≡ ok (block (j + m)))
      → (seq' : ℕ) × (frames : List Bytes) × (send_blocks a rs key c seq j payloads
          ≡ ok (seq', frames))
        × (seq' < 2 ^ 64)
        × (length frames ≡ length payloads * total_shards c)
        × AreBlocks a key c blocks_full j (length payloads) frames
  unfolding send_blocks AreBlocks AreFrames
  send_blocks-AreBlocks seq j [] small_s small_j split =
      (seq, [], refl, small_s, omega arith, λ m i less. absurd (omega arith))
  send_blocks-AreBlocks seq j (payload ∷ payloads) small_s small_j split =
      let start : j + 0 ≡ j = omega arith in
      let (seq', frames, run, small', count, each) =
        send_block-AreFrames seq j payload small_s (omega arith) (
          subst (λ n. split_data c.data_shards payload ≡ ok (block n)) start
            (split 0 payload refl)) in
      let (seq'', more, run', small'', count', each') =
        send_blocks-AreBlocks seq' (suc j) payloads small' (omega arith) (λ m p e.
          let index : j + suc m ≡ suc j + m = omega arith in
          subst (λ n. split_data c.data_shards p ≡ ok (block n)) index (split (suc m) p e)) in
      (
        seq'',
        frames ++ more,
        rw (run, run') refl,
        small'',
        length-append frames more ∙ blocks_count (length frames) (length more) count count',
        elim [
          | zero ↦ λ i less inside.
              let (bytes, at, is_frame) = each i inside in
              let place : i ≡ 0 * total_shards c + i = omega arith in
              (
                bytes,
                subst (λ n. get_elem? (frames ++ more) n ≡ some bytes) place
                    (get_elem?-append frames more i bytes at),
                subst (λ n. IsFrame a key c blocks_full n i bytes) (sym start) is_frame,
              )
          | suc m ↦ λ i less inside.
              let (bytes, at, is_frame) = each' m i (omega arith) inside in
              let index : suc j + m ≡ j + suc m = omega arith in
              (
                bytes,
                subst (λ n. get_elem? (frames ++ more) n ≡ some bytes)
                    (place m i (length frames) count)
                    (get_elem?-append_add frames more (m * total_shards c + i) ∙ at),
                subst (λ n. IsFrame a key c blocks_full n i bytes) index is_frame,
              )
        ],
      )
    where
      blocks_count :
          (x y : ℕ)
          → x ≡ total_shards c
          → y ≡ length payloads * total_shards c
          → x + y ≡ suc (length payloads) * total_shards c
      blocks_count x y e f = ground arith

      place :
          (m i x : ℕ)
          → x ≡ total_shards c
          → x + (m * total_shards c + i) ≡ suc m * total_shards c + i
      place m i x e = ground arith
