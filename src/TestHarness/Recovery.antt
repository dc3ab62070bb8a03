-- ===== src/TestHarness/Recovery.antt =====
-- src/bin/test_harness.rs: which blocks the receiver recovers.
use entrouter_line.Base.{
  ℕ, zero, suc, ◌+◌, ◌%◌, ◌^◌, ◌≤◌, ◌<◌, ◌≡◌, ◌≢◌, refl, sym, ap, ◌∙◌, ◌⊎◌, inl, inr, Bool, true,
  false, ◌&&◌, ◌||◌, List, [], ◌∷◌, ◌++◌, some, ok, Bytes, nat_eq, length, length-append, get_elem?,
  ◌==◌, is_some, arith,
}
use mathlib.Core.Path.{subst}
use native.Mathlib.Decide.{dec_lt}
use entrouter_line.Relay.Crypto.{Aead, Seals}
use entrouter_line.Relay.Fec
use entrouter_line.Relay.Fec.{FecConfig, LossTracker, ReedSolomon, new_encoder, total_shards}
use entrouter_line.Relay.Fec.Encoder.{Recovers, Uniform}
use entrouter_line.Relay.Fec.Window.{IsTracker}
use entrouter_line.Relay.Tunnel.{build_frame, recv_into}
use entrouter_line.Relay.Wire.{packet_control}
use entrouter_line.TestHarness.{
  Blocks, Receiver, Arrival, timeout, failed, datagram, prefixed, done, take_packet, after_decrypt,
  receive_loop, lost, BlockResult, block_results, store_shard,
}
use entrouter_line.TestHarness.Store.{
  Arrivals, arrived, cells_of, missing, IsStored, store_shard-IsStored, length-cells_of,
  cells_of-IsPart, lost-cells_of, present-lost,
}
use entrouter_line.TestHarness.Receiving.{
  take_packet-prefixed, receive_round-frame, length-recv_into,
}

-- The buffer of the receiver.
abbrev pub buffer_len : ℕ
buffer_len = 2048

module _ (a : Aead) (key : Bytes) (c : FecConfig) (full : ℕ → List Bytes) where
  -- A frame with shard `i` of block `j`.
  pub record IsFrame (j i : ℕ) (bytes : Bytes) : Type 0 where
    pub seq : ℕ
    pub ptype : ℕ
    pub shard : Bytes
    pub seq_small : seq < 2 ^ 64
    pub no_control : ptype ≢ packet_control
    pub block_small : j < 2 ^ 32
    pub index_small : i < 2 ^ 16
    pub inside : i < total_shards c
    pub fits : length shard + 33 ≤ buffer_len
    pub is_shard : get_elem? (full j) i ≡ some shard
    pub built : build_frame a key seq ptype (prefixed j i shard) ≡ ok bytes

  -- The frame that ends the test.
  pub record IsDone (bytes : Bytes) : Type 0 where
    pub seq : ℕ
    pub seq_small : seq < 2 ^ 64
    pub built : build_frame a key seq packet_control done ≡ ok bytes

  -- What arrives, until the test is over, are frames with these shards.
  abbrev pub Carries : List Arrival → Arrivals → Type 0
  Carries [] picks = picks ≡ []
  Carries (timeout ∷ arrivals) picks = picks ≡ []
  Carries (failed ∷ arrivals) picks = Carries arrivals picks
  Carries (datagram from bytes ∷ arrivals) [] = IsDone bytes
  Carries (datagram from bytes ∷ arrivals) ((j, i) ∷ picks) =
      IsFrame j i bytes × Carries arrivals picks

-- The picks, the last first, in front of others.
abbrev pub onto : Arrivals → Arrivals → Arrivals
onto [] acc = acc
onto (pick ∷ picks) acc = onto picks (pick ∷ acc)

after_frame :
    (total : ℕ) (r : Receiver) (t j i : ℕ) (shard : Bytes)
    → t ≢ packet_control
    → j < 2 ^ 32
    → i < 2 ^ 16
    → after_decrypt total r t (some (prefixed j i shard))
      ≡ (record r { blocks = store_shard total r.blocks j i shard }, true)
unfolding after_decrypt
after_frame total r t j i shard other small_j small_i =
    rw (take_packet-prefixed total r.blocks t j i shard other small_j small_i, after_decrypt) refl

after_done :
    (total : ℕ) (r : Receiver) → after_decrypt total r packet_control (some done) ≡ (r, false)
unfolding after_decrypt take_packet
after_done total r = refl

module _ (a : Aead) (key : Bytes) (c : FecConfig) (full : ℕ → List Bytes) (seals : Seals a) where
  pub receive_loop-IsStored :
      (arrivals : List Arrival) (picks acc : Arrivals) (r : Receiver) (buf : Bytes)
      → Carries a key c full arrivals picks
      → length buf ≡ buffer_len
      → r.expected_seq < 2 ^ 64
      → IsTracker r.loss_tracker
      → IsStored (total_shards c) full acc r.blocks
      → (r' : Receiver) × (receive_loop a key c r buf arrivals ≡ some (ok r'))
        × IsStored (total_shards c) full (onto picks acc) r'.blocks
  unfolding receive_loop
  receive_loop-IsStored [] picks acc r buf carries room small v stored = (
    r,
    refl,
    subst (λ p. IsStored (total_shards c) full (onto p acc) r.blocks) (sym carries) stored,
  )
  receive_loop-IsStored (timeout ∷ arrivals) picks acc r buf carries room small v stored = (
    r,
    refl,
    subst (λ p. IsStored (total_shards c) full (onto p acc) r.blocks) (sym carries) stored,
  )
  receive_loop-IsStored (failed ∷ arrivals) picks acc r buf carries room small v stored =
      receive_loop-IsStored arrivals picks acc r buf carries room small v stored
  receive_loop-IsStored (datagram from bytes ∷ arrivals) [] acc r buf d room small v stored =
      let (tracker, v', run) =
        receive_round-frame a key c r buf d.seq packet_control done bytes seals
          (omega (arith, room)) (omega (arith, room)) d.seq_small d.built small v in
      let r' : Receiver = record r {
        expected_seq = (d.seq + 1) % 2 ^ 64;
        loss_tracker = tracker;
      } in
      (
        r',
        rw (run ∙ ap (λ q. some (ok q)) (after_done (total_shards c) r'), receive_loop) refl,
        stored,
      )
  receive_loop-IsStored (datagram from bytes ∷ arrivals) ((j, i) ∷ picks) acc r buf (f, carries)
        room small v stored =
      let (tracker, v', run) =
        receive_round-frame a key c r buf f.seq f.ptype (prefixed j i f.shard) bytes seals
          (omega (arith, room, f.fits)) (omega (arith, room)) f.seq_small f.built small v in
      let r₁ : Receiver = record r {
        expected_seq = (f.seq + 1) % 2 ^ 64;
        loss_tracker = tracker;
      } in
      let r₂ : Receiver = record r₁ {
        blocks = store_shard (total_shards c) r.blocks j i f.shard;
      } in
      let next =
        run
        ∙ ap (λ q. some (ok q))
            (after_frame (total_shards c) r₁ f.ptype j i f.shard f.no_control f.block_small
              f.index_small) in
      let (r', rest, stored') =
        receive_loop-IsStored arrivals picks ((j, i) ∷ acc) r₂ (recv_into buf bytes) carries
          (length-recv_into a key c buf bytes ∙ room) (omega arith) v'
          (store_shard-IsStored (total_shards c) full acc r.blocks j i f.shard f.inside f.is_shard
            stored) in
      (r', rw (next, receive_loop) rest, stored')

arrived-onto :
    (picks acc : Arrivals) (j i : ℕ)
    → arrived (onto picks acc) j i ≡ arrived picks j i || arrived acc j i
arrived-onto [] acc j i = refl
arrived-onto ((b, s) ∷ picks) acc j i =
    arrived-onto picks ((b, s) ∷ acc) j i
    ∙ swap (b == j && s == i) (arrived picks j i) (arrived acc j i)
  where
    swap : (x y z : Bool) → (y || (x || z)) ≡ ((x || y) || z)
    swap x y z = ground arith

missing_congr :
    (picks acc : Arrivals) (j i n : ℕ)
    → ((s : ℕ) → arrived picks j s ≡ arrived acc j s)
    → missing picks j i n ≡ missing acc j i n
unfolding missing
missing_congr picks acc j i zero h = refl
missing_congr picks acc j i (suc n) h = rw (h i, missing_congr picks acc j (suc i) n h) refl

pub missing-onto :
    (picks : Arrivals) (j i n : ℕ) → missing (onto picks []) j i n ≡ missing picks j i n
missing-onto picks j i n =
    missing_congr (onto picks []) picks j i n (λ s. arrived-onto picks [] j s ∙ ||-false-right _)
  where
    ||-false-right : (x : Bool) → (x || false) ≡ x
    ||-false-right x = ground arith

-- The results of the blocks from `j` on: the shards that are counted as lost are those that have not
-- arrived, and a block is a success if it has not lost more than `p` shards.
unfoldable pub Recovered : Arrivals → ℕ → ℕ → ℕ → List BlockResult → Type 0
Recovered picks total p j [] = Unit {0}
Recovered picks total p j (r ∷ results) =
    (r.shards_lost ≡ missing picks j 0 total)
    × ((r.success ≡ true) ⊎ (p < missing picks j 0 total))
    × Recovered picks total p (suc j) results

-- The shards of the blocks: data and parity.
abbrev pub full :
    (rs : ReedSolomon) (c : FecConfig)
    → Recovers rs c.data_shards c.parity_shards
    → (ℕ → List Bytes)
    → ℕ
    → List Bytes
full rs c code block j = block j ++ code.parity (block j)

module _ (rs : ReedSolomon) (c : FecConfig) (code : Recovers rs c.data_shards c.parity_shards)
    (block : ℕ → List Bytes) (width : ℕ → ℕ) (size : (j : ℕ) → length (block j) ≡ c.data_shards)
    (wide : (j : ℕ) → 0 < width j) (uniform : (j : ℕ) → Uniform (width j) (block j)) where
  pub length-full : (j : ℕ) → length (full rs c code block j) ≡ total_shards c
  length-full j =
      omega (
        arith,
        length-append (block j) (code.parity (block j)),
        size j,
        code.parity_length (block j),
      )

  pub block_results-Recovered :
      (picks : Arrivals) (blocks : Blocks) (j n : ℕ)
      → IsStored (total_shards c) (full rs c code block) picks blocks
      → (results : List BlockResult) × (block_results rs c blocks j n ≡ ok results)
        × (length results ≡ n)
        × Recovered picks (total_shards c) c.parity_shards j results
  unfolding block_results Recovered new_encoder Fec.reconstruct
  block_results-Recovered picks blocks j zero stored = ([], refl, refl, tt)
  block_results-Recovered picks blocks j (suc n) stored =
      let (results, run, count, rest) = block_results-Recovered picks blocks (suc j) n stored in
      let cells = cells_of picks j 0 (full rs c code block j) in
      let lost_count : lost cells ≡ missing picks j 0 (total_shards c) =
        lost-cells_of picks j 0 (full rs c code block j) ∙ ap (missing picks j 0) (length-full j) in
      let there = present-lost cells in
      let whole = length-cells_of picks j 0 (full rs c code block j) in
      let result : BlockResult = record {
        success = is_some (Fec.reconstruct rs c cells);
        shards_lost = lost cells;
      } in
      (
        result ∷ results,
        rw (code.accepted, stored j, run) refl,
        ap suc count,
        (
          lost_count,
          elim (dec_lt c.parity_shards (missing picks j 0 (total_shards c))) [
            | yes many ↦ inr many
            | no few ↦ inl (
                ap is_some (
                  code.restores (width j) (block j) cells (size j) (wide j) (uniform j)
                    (cells_of-IsPart picks j 0 (full rs c code block j))
                    (omega (arith, few, lost_count, there, whole, length-full j))))
          ],
          rest,
        ),
      )

-- The order of the picks does not matter.
pub Recovered-onto :
    (picks : Arrivals) (total p j : ℕ) (results : List BlockResult)
    → Recovered (onto picks []) total p j results
    → Recovered picks total p j results
unfolding Recovered
Recovered-onto picks total p j [] h = h
Recovered-onto picks total p j (r ∷ results) (counted, good, rest) =
    let same = missing-onto picks j 0 total in
    (
      counted ∙ same,
      elim good [ inl success ↦ inl success | inr many ↦ inr (omega (arith, many, same)) ],
      Recovered-onto picks total p (suc j) results rest,
    )
