-- ===== src/TestHarness/EndToEnd.antt =====
-- src/bin/test_harness.rs: the sender, what is lost on the way, and the receiver.
use entrouter_line.Base.{
  ℕ, zero, suc, none≢some, ◌-◌, ◌/◌, Run, panic, get_or, All-get_or, All-append, ◌+◌, ◌*◌, ◌^◌, ◌≤◌,
  ◌<◌, ◌≡◌, refl, sym, ap, ◌∙◌, List, [], ◌∷◌, ◌++◌, some, some-injective, ok, ok-injective, Bytes,
  length, length-append, length-replicate, replicate, get_elem?, get_elem?-append,
  get_elem?-append_length, arith, All,
}
use mathlib.Core.Path.{subst}
use native.Mathlib.Nat.{mod-eq_of_lt, div_self}
use entrouter_line.Relay.Crypto.{Aead, Seals}
use entrouter_line.Relay.Fec.{FecConfig, ReedSolomon, total_shards}
use entrouter_line.Relay.Fec.Encoder.{Recovers, Uniform}
use entrouter_line.Relay.Fec.Window.{new-IsTracker}
use entrouter_line.Relay.Tunnel.{split_data}
use entrouter_line.Relay.Tunnel.Blocks.{split_data-whole, div_ceil_pos}
use entrouter_line.Relay.Wire.{packet_control}
use entrouter_line.TestHarness.{
  Arrival, timeout, failed, datagram, done, send_all, new_receiver, run_receiver, BlockResult,
  block_results,
}
use entrouter_line.TestHarness.Store.{Arrivals, none-IsStored}
use entrouter_line.TestHarness.Recovery.{
  IsFrame, IsDone, Carries, onto, receive_loop-IsStored, Recovered, Recovered-onto,
  block_results-Recovered, buffer_len, full, length-full,
}
use entrouter_line.TestHarness.Sending.{build_frame-ok, AreBlocks, send_blocks-AreBlocks}

-- What arrives are frames of a list, those of the shards that are picked, until the test is over: at
-- the frame behind those of all `n` blocks of `total` shards, at a timeout, or with the last event.
unfoldable pub Arrives : List Bytes → ℕ → ℕ → List Arrival → Arrivals → Type 0
Arrives frames n total [] picks = picks ≡ []
Arrives frames n total (timeout ∷ arrivals) picks = picks ≡ []
Arrives frames n total (failed ∷ arrivals) picks = Arrives frames n total arrivals picks
Arrives frames n total (datagram from bytes ∷ arrivals) [] =
    get_elem? frames (n * total) ≡ some bytes
Arrives frames n total (datagram from bytes ∷ arrivals) ((j, i) ∷ picks) =
    (j < n)
    × (i < total)
    × (get_elem? frames (j * total + i) ≡ some bytes)
    × Arrives frames n total arrivals picks

module _ (a : Aead) (rs : ReedSolomon) (key : Bytes) (c : FecConfig)
    (code : Recovers rs c.data_shards c.parity_shards) (block : ℕ → List Bytes) (width : ℕ → ℕ)
    (size : (j : ℕ) → length (block j) ≡ c.data_shards) (wide : (j : ℕ) → 0 < width j)
    (uniform : (j : ℕ) → Uniform (width j) (block j)) (seals : Seals a)
    (few : total_shards c ≤ 2 ^ 16) (some_data : 0 < c.data_shards)
    (fits : (j : ℕ) → All (λ s. length s + 33 ≤ buffer_len) (full rs c code block j))
    (payloads : List Bytes)
    (split : (m : ℕ) (p : Bytes)
      → get_elem? payloads m ≡ some p
      → split_data c.data_shards p ≡ ok (block m))
    (small : length payloads < 2 ^ 32) where
  sent-AreBlocks :
      (frames : List Bytes) × (term : Bytes) × (send_all a rs key c payloads ≡ ok frames)
      × (length frames ≡ length payloads * total_shards c + 1)
      × AreBlocks a key c (full rs c code block) 0 (length payloads) frames
      × (get_elem? frames (length payloads * total_shards c) ≡ some term)
      × IsDone a key c (full rs c code block) term
  unfolding send_all AreBlocks
  sent-AreBlocks =
      let (seq, frames, run, small_s, count, each) =
        send_blocks-AreBlocks a rs key c code block width size wide uniform seals few some_data fits
          0 0 payloads (omega arith) (omega (arith, small))
          (λ m p e.
            let index : m ≡ 0 + m = omega arith in
            subst (λ n. split_data c.data_shards p ≡ ok (block n)) index (split m p e)) in
      let (term, built) = build_frame-ok a key seq packet_control done seals (omega arith) in
      (
        frames ++ term ∷ [],
        term,
        rw (run, built) refl,
        omega (arith, length-append frames (term ∷ []), count),
        λ m i less inside.
            let (bytes, at, is_frame) = each m i less inside in
            (
              bytes,
              get_elem?-append frames (term ∷ []) (m * total_shards c + i) bytes at,
              is_frame,
            ),
        subst (λ n. get_elem? (frames ++ term ∷ []) n ≡ some term) count
            (get_elem?-append_length frames term),
        record { seq = seq; seq_small = small_s; built = built },
      )

  -- What arrives of the sender's frames carries shards of the blocks.
  Arrives-Carries :
      (frames : List Bytes) (arrivals : List Arrival) (picks : Arrivals)
      → send_all a rs key c payloads ≡ ok frames
      → Arrives frames (length payloads) (total_shards c) arrivals picks
      → Carries a key c (full rs c code block) arrivals picks
  unfolding Arrives AreBlocks
  Arrives-Carries frames [] picks e h = h
  Arrives-Carries frames (timeout ∷ arrivals) picks e h = h
  Arrives-Carries frames (failed ∷ arrivals) picks e h = Arrives-Carries frames arrivals picks e h
  Arrives-Carries frames (datagram from bytes ∷ arrivals) [] e h =
      let (frames', term, run, count, each, last, is_done) = sent-AreBlocks in
      let same : frames' ≡ frames = ok-injective (sym run ∙ e) in
      let got : term ≡ bytes =
        some-injective
          (sym last ∙ ap (λ f. get_elem? f (length payloads * total_shards c)) same ∙ h) in
      subst (IsDone a key c (full rs c code block)) got is_done
  Arrives-Carries frames (datagram from bytes ∷ arrivals) ((j, i) ∷ picks) e (less, inside, at, h) =
      let (frames', term, run, count, each, last, is_done) = sent-AreBlocks in
      let same : frames' ≡ frames = ok-injective (sym run ∙ e) in
      let (bytes', at', is_frame) = each j i less inside in
      let got : bytes' ≡ bytes =
        some-injective (sym at' ∙ ap (λ f. get_elem? f (j * total_shards c + i)) same ∙ at) in
      let index : 0 + j ≡ j = omega arith in
      (
        subst (λ b. IsFrame a key c (full rs c code block) j i b) got
            (subst (λ n. IsFrame a key c (full rs c code block) n i bytes') index is_frame),
        Arrives-Carries frames arrivals picks e h,
      )

  receiver-Recovered :
      (frames : List Bytes) (arrivals : List Arrival) (picks : Arrivals)
      → send_all a rs key c payloads ≡ ok frames
      → Arrives frames (length payloads) (total_shards c) arrivals picks
      → (results : List BlockResult) × (run_receiver a rs key c (length payloads) arrivals
          ≡ some (ok results))
        × (length results ≡ length payloads)
        × Recovered picks (total_shards c) c.parity_shards 0 results
  unfolding run_receiver
  receiver-Recovered frames arrivals picks e h =
      let shards = full rs c code block in
      let (r, run, stored) =
        receive_loop-IsStored a key c shards seals arrivals picks [] new_receiver
          (replicate buffer_len 0) (Arrives-Carries frames arrivals picks e h)
          (length-replicate {A = ℕ} buffer_len 0) (omega arith) (new-IsTracker 1000 (omega arith))
          (none-IsStored (total_shards c) shards
            (length-full rs c code block width size wide uniform)) in
      let (results, counted, count, recovered) =
        block_results-Recovered rs c code block width size wide uniform (onto picks []) r.blocks 0
          (length payloads) stored in
      (
        results,
        rw (run, run_receiver)
            (ap (λ n. some (block_results rs c r.blocks 0 n))
                (mod-eq_of_lt {n = length payloads} {m = 2 ^ 32} small)
              ∙ ap some counted),
        count,
        Recovered-onto picks (total_shards c) c.parity_shards 0 results recovered,
      )

get_or-some : (xs : List Bytes) (i : ℕ) (d x : Bytes) → get_elem? xs i ≡ some x → get_or xs i d ≡ x
get_or-some [] i d x e = absurd (none≢some e)
get_or-some (y ∷ xs) zero d x e = some-injective e
get_or-some (y ∷ xs) (suc i) d x e = get_or-some xs i d x e

-- The block that the sender makes of payload `j`.
or_empty : Run (List Bytes) → List Bytes
or_empty (ok shards) = shards
or_empty panic = []

block_at : FecConfig → List Bytes → ℕ → List Bytes
block_at c payloads j = or_empty (split_data c.data_shards (get_or payloads j (0 ∷ [])))

abbrev pub width_of : FecConfig → Bytes → ℕ
width_of c payload = (length payload + c.data_shards - 1) / c.data_shards

-- A payload of which every shard fits, behind its headers, into the receiver's buffer.
abbrev pub IsSendable : FecConfig → Bytes → Type 0
IsSendable c payload = (0 < length payload) × (width_of c payload + 33 ≤ buffer_len)

shorter :
    (n m : ℕ) (shards : List Bytes)
    → n + 33 ≤ m
    → Uniform n shards
    → All (λ s. length s + 33 ≤ m) shards
shorter n m [] h u = tt
shorter n m (s ∷ shards) h (e, u) = (omega arith, shorter n m shards h u)

module _ (a : Aead) (rs : ReedSolomon) (key : Bytes) (c : FecConfig)
    (code : Recovers rs c.data_shards c.parity_shards)
    (parity_uniform : (n : ℕ) (data_part : List Bytes)
      → length data_part ≡ c.data_shards
      → Uniform n data_part
      → Uniform n (code.parity data_part))
    (seals : Seals a) (few : total_shards c ≤ 2 ^ 16) (some_data : 0 < c.data_shards)
    (payloads : List Bytes) (sendable : All (IsSendable c) payloads)
    (small : length payloads < 2 ^ 32) where
  payload_at : ℕ → Bytes
  payload_at j = get_or payloads j (0 ∷ [])

  payload_at-IsSendable : (j : ℕ) → IsSendable c (payload_at j)
  unfolding payload_at
  payload_at-IsSendable j =
      let one : (1 + c.data_shards - 1) / c.data_shards ≡ 1 =
        ap (λ n. n / c.data_shards) (omega arith) ∙ div_self some_data in
      All-get_or (IsSendable c) payloads j (0 ∷ []) (omega arith, omega (arith, one)) sendable

  block_at-split :
      (j : ℕ)
      → (split_data c.data_shards (payload_at j) ≡ ok (block_at c payloads j))
        × (length (block_at c payloads j) ≡ c.data_shards)
        × Uniform (width_of c (payload_at j)) (block_at c payloads j)
  unfolding block_at or_empty payload_at
  block_at-split j =
      let (shards, rest, run, count, uniform, whole, zeros) =
        (split_data-whole c.data_shards (payload_at j) some_data).0 (payload_at-IsSendable j).0 in
      rw run (refl, count, uniform)

  block_at-fits :
      (j : ℕ) → All (λ s. length s + 33 ≤ buffer_len) (full rs c code (block_at c payloads) j)
  block_at-fits j =
      let (run, count, uniform) = block_at-split j in
      let n = width_of c (payload_at j) in
      shorter n buffer_len (full rs c code (block_at c payloads) j) (payload_at-IsSendable j).1 (
        All-append _ (block_at c payloads j) (code.parity (block_at c payloads j)) uniform
          (parity_uniform n (block_at c payloads j) count uniform))

  width_at-pos : (j : ℕ) → 0 < width_of c (payload_at j)
  width_at-pos j =
      div_ceil_pos (length (payload_at j)) c.data_shards some_data (payload_at-IsSendable j).0

  payload_at-split :
      (m : ℕ) (p : Bytes)
      → get_elem? payloads m ≡ some p
      → split_data c.data_shards p ≡ ok (block_at c payloads m)
  unfolding payload_at
  payload_at-split m p e =
      ap (split_data c.data_shards) (sym (get_or-some payloads m (0 ∷ []) p e))
      ∙ (block_at-split m).0

  pub send_all-AreBlocks :
      (block : ℕ → List Bytes) × (frames : List Bytes) × (term : Bytes) × ((m : ℕ) (p : Bytes)
        → get_elem? payloads m ≡ some p
        → split_data c.data_shards p ≡ ok (block m))
      × (send_all a rs key c payloads ≡ ok frames)
      × (length frames ≡ length payloads * total_shards c + 1)
      × AreBlocks a key c (full rs c code block) 0 (length payloads) frames
      × (get_elem? frames (length payloads * total_shards c) ≡ some term)
      × IsDone a key c (full rs c code block) term
  send_all-AreBlocks =
      let (frames, term, run, count, each, last, is_done) =
        sent-AreBlocks a rs key c code (block_at c payloads) (λ j. width_of c (payload_at j))
          (λ j. (block_at-split j).1) width_at-pos (λ j. (block_at-split j).2) seals few some_data
          block_at-fits payloads payload_at-split small in
      (block_at c payloads, frames, term, payload_at-split, run, count, each, last, is_done)

  -- For fewer than 2 ^ 32 payloads, none of them empty and each with shards of at most 2015 bytes, which
  -- fit into the receiver's buffer; over a cipher that keeps its promise, and an erasure code that keeps
  -- its promise and makes parity shards as long as the data shards, with at most 2 ^ 16 shards in a
  -- block. Whatever frames of the sender arrive, lost, doubled and in any order, until its last frame, a
  -- timeout or no more arrivals: the receiver ends with one result for each block, which counts the
  -- shards that have not arrived, and every block that lost no more shards than it has parity shards is
  -- recovered.
  pub run_receiver-Recovered :
      (frames : List Bytes) (arrivals : List Arrival) (picks : Arrivals)
      → send_all a rs key c payloads ≡ ok frames
      → Arrives frames (length payloads) (total_shards c) arrivals picks
      → (results : List BlockResult) × (run_receiver a rs key c (length payloads) arrivals
          ≡ some (ok results))
        × (length results ≡ length payloads)
        × Recovered picks (total_shards c) c.parity_shards 0 results
  run_receiver-Recovered =
      receiver-Recovered a rs key c code (block_at c payloads) (λ j. width_of c (payload_at j))
        (λ j. (block_at-split j).1) width_at-pos (λ j. (block_at-split j).2) seals few some_data
        block_at-fits payloads payload_at-split small
