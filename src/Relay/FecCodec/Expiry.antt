-- ===== src/Relay/FecCodec/Expiry.antt =====
-- src/relay/fec_codec.rs: a block whose shards arrive while the timer expires old blocks.
use entrouter_line.Base.{
  ℕ, ◌^◌, ◌+◌, ◌-◌, ◌/◌, ◌≤◌, ◌<◌, ◌≡◌, refl, ap, sym, ◌∙◌, inl, inr, ◌⊎◌, List, [], ◌∷◌, ◌++◌, map,
  Option, none, some, Bytes, All, Run, ok, ◌>>=◌, length, set, arith, insert, remove, lookup,
  nat_eq, lookup-insert_self, lookup-retain_kept, lookup-retain_absent, Option-cases, ltb, lt→ltb,
  replicate,
}
use mathlib.Core.Path.{subst}
use entrouter_line.Relay.Fec.{FecConfig, ReedSolomon}
use entrouter_line.Relay.Fec.Encoder.{IsPart, present, Recovers}
use entrouter_line.Relay.FecCodec.Cells.{
  IsPart-set, present-set, length-IsPart, get_elem?-some, present-replicate, IsPart-replicate,
}
use entrouter_line.Relay.FecCodec.Sender.{
  framing, shard_len, shard_len_pos, data_block-Uniform, length-data_block, block_of, flushed,
  flush-block_of,
}
use entrouter_line.Relay.FecCodec.Payloads.{IsPayload, collect-data_block}
use entrouter_line.Relay.FecCodec.Receiver.{
  Current, full, IsBlock, length-full, receive_at_more, receive_at_last,
}
use entrouter_line.Relay.FecCodec.RoundTrip.{
  found, arrive, Distinct, Fits, Fits-set, clean, receive_shard-arrive, fits_fresh,
}
use entrouter_line.Relay.FecCodec.{
  FecReceiver, FecSender, PendingBlock, ShardHeader, new_block, entry_or_new, receive_shard,
  expire_old, data_block, flush,
}

-- What comes to a receiver at a time: a shard, or the timer that lets blocks of half a second expire.
unfoldable pub deliver_moments :
    ReedSolomon → FecReceiver → List (ℕ × Option Bytes) → Run (FecReceiver × List (List Bytes))
deliver_moments rs blocks [] = ok (blocks, [])
deliver_moments rs blocks ((now, none) ∷ moments) =
    deliver_moments rs (expire_old now 500 blocks) moments
deliver_moments rs blocks ((now, some shard) ∷ moments) = do
  (blocks', out) ← receive_shard rs now blocks shard
  (blocks'', outs) ← deliver_moments rs blocks' moments
  ok (blocks'', found out ++ outs)

-- A frame of a block that arrives at a time, or the timer.
abbrev pub Schedule : Type 0
Schedule = List (ℕ × Option ℕ)

abbrev pub moment_of : List (ℕ × Bytes) → ℕ × Option ℕ → ℕ × Option Bytes
moment_of frames (now, none) = (now, none)
moment_of frames (now, some i) = (now, some (arrive frames (now, i)).1)

abbrev pub arrivals : Schedule → List (ℕ × ℕ)
arrivals [] = []
arrivals ((now, none) ∷ schedule) = arrivals schedule
arrivals ((now, some i) ∷ schedule) = (now, i) ∷ arrivals schedule

-- No shard before `t`, and no timer half a second after it.
abbrev pub IsTimely : ℕ → ℕ × Option ℕ → Type 0
IsTimely t (now, none) = now < t + 500_000_000
IsTimely t (now, some i) = t ≤ now

abbrev IsOpenedFrom : ℕ → Option PendingBlock → Type 0
IsOpenedFrom t none = Unit
IsOpenedFrom t (some b) = t ≤ b.created_at

expire_old-kept :
    (t id now : ℕ) (blocks : FecReceiver)
    → IsOpenedFrom t (lookup id blocks)
    → now < t + 500_000_000
    → lookup id (expire_old now 500 blocks) ≡ lookup id blocks
unfolding expire_old
expire_old-kept t id now blocks from soon =
    let young : PendingBlock → _ = λ b. ltb ((now - b.created_at) / 1_000_000) 500 in
    elim (Option-cases (lookup id blocks)) [
      | inl missing ↦ lookup-retain_absent young id blocks missing ∙ sym missing
      | inr (b, there) ↦
          let opened : t ≤ b.created_at = subst (IsOpenedFrom t) there from in
          lookup-retain_kept young id b blocks there
            (lt→ltb ((now - b.created_at) / 1_000_000) 500 (omega (arith, opened, soon)))
          ∙ sym there
    ]

opened_by :
    (t now : ℕ) (h : ShardHeader) (o : Option PendingBlock)
    → t ≤ now
    → IsOpenedFrom t o
    → t ≤ (entry_or_new now h o).created_at
unfolding new_block
opened_by t now h none late from = late
opened_by t now h (some b) late from = from

some_left : {A : Type 0} (xs : List A) → (xs ≡ []) ⊎ (0 < length xs)
some_left [] = inl refl
some_left (x ∷ xs) = inr (omega arith)

module _ (rs : ReedSolomon) where
  -- Without shards, the timer gives nothing out.
  timer_only :
      (frames : List (ℕ × Bytes)) (schedule : Schedule) (blocks : FecReceiver)
      → arrivals schedule ≡ []
      → (after : FecReceiver) × (deliver_moments rs blocks (map (moment_of frames) schedule)
          ≡ ok (after, []))
  unfolding deliver_moments
  timer_only frames [] blocks e = (blocks, refl)
  timer_only frames ((now, none) ∷ schedule) blocks e =
      timer_only frames schedule (expire_old now 500 blocks) e
  timer_only frames ((now, some i) ∷ schedule) blocks e = absurd (cc)

module _ (rs : ReedSolomon) (c : FecConfig) (r : Recovers rs c.data_shards c.parity_shards)
    (data_part : List Bytes) (n : ℕ) (payloads : List Bytes) (id : ℕ)
    (block : IsBlock rs c r data_part n payloads) (small_id : id < 2 ^ 16)
    (small_k : c.data_shards < 256) (small_p : c.parity_shards < 256)
    (small : c.data_shards + c.parity_shards ≤ 256) (t : ℕ) where
  abbrev all_shards : List Bytes
  all_shards = full rs c r data_part n payloads

  abbrev all_frames : List (ℕ × Bytes)
  all_frames = framing c id 0 all_shards

  abbrev HasRoom : List (Option Bytes) → ℕ × ℕ → Type 0
  HasRoom = Fits rs c r data_part n payloads id block small_id small_k small_p small

  deliver_moments-rest :
      (schedule : Schedule) (blocks : FecReceiver) (got : List (Option Bytes))
      → Current c.data_shards c.parity_shards (lookup id blocks) got
      → IsOpenedFrom t (lookup id blocks)
      → IsPart got all_shards
      → All (HasRoom got) (arrivals schedule)
      → Distinct (arrivals schedule)
      → All (IsTimely t) schedule
      → 0 < length (arrivals schedule)
      → present got + length (arrivals schedule) ≡ c.data_shards
      → (after : FecReceiver) × (deliver_moments rs blocks (map (moment_of all_frames) schedule)
          ≡ ok (after, payloads ∷ []))
  unfolding deliver_moments clean
  deliver_moments-rest [] blocks got cur from part fits distinct timely pos sum =
      absurd (omega arith)
  deliver_moments-rest ((now, none) ∷ schedule) blocks got cur from part fits distinct timely pos
        sum =
      let kept = expire_old-kept t id now blocks from timely.0 in
      deliver_moments-rest schedule (expire_old now 500 blocks) got
        (subst (λ o. Current c.data_shards c.parity_shards o got) (sym kept) cur)
        (subst (IsOpenedFrom t) (sym kept) from) part fits distinct timely.1 pos sum
  deliver_moments-rest ((now, some i) ∷ schedule) blocks got cur from part fits distinct timely pos
        sum =
      let size = length-full rs c r data_part n payloads block in
      let (s, this) = get_elem?-some all_shards i (omega (arith, fits.0.0, size)) in
      let arrived =
        receive_shard-arrive rs c r data_part n payloads id block small_id small_k small_p small now
          i s blocks this fits.0.0 in
      let h = clean rs c r data_part n payloads id block small_id small_k small_p small i s in
      elim (some_left (arrivals schedule)) [
        | inl none_left ↦
            let last =
              receive_at_last rs c r data_part n payloads now h blocks got s block refl refl cur
                part this fits.0.0 fits.0.1 (omega (arith, sum, ap length none_left)) in
            let (after, rest) = timer_only rs all_frames schedule (remove id blocks) none_left in
            (after, rw (arrived ∙ last, rest) refl)
        | inr more ↦
            let (entry, run, cur', opened) =
              receive_at_more rs c r data_part n payloads now h blocks got s block refl refl cur
                part this fits.0.0 fits.0.1 (omega (arith, sum, more)) in
            let got' = set got i (some s) in
            let there = lookup-insert_self id entry blocks in
            let (after, rest) =
              deliver_moments-rest schedule (insert id entry blocks) got'
                (subst (λ o. Current c.data_shards c.parity_shards o got') (sym there) cur')
                (subst (IsOpenedFrom t) (sym there)
                  (omega (arith, opened, opened_by t now h (lookup id blocks) timely.0 from)))
                (IsPart-set got all_shards i s part this)
                (Fits-set rs c r data_part n payloads id block small_id small_k small_p small got i
                  s (arrivals schedule) distinct.0 fits.1)
                distinct.1 timely.1 more
                (omega (
                  arith,
                  sum,
                  present-set got i s
                      (omega (arith, length-IsPart got all_shards part, size, fits.0.0)) fits.0.1,
                )) in
            (after, rw (arrived ∙ run, rest) refl)
      ]

-- A block that a sender flushes comes out of a receiver once, whole and in its order, while the timer
-- runs between its shards.
pub flush-deliver_moments :
    (rs : ReedSolomon) (s : FecSender) (blocks : FecReceiver) (t : ℕ) (schedule : Schedule)
    → (r : Recovers rs s.config.data_shards s.config.parity_shards) → 0 < length s.buffer
    → length s.buffer ≤ s.config.data_shards
    → All IsPayload s.buffer
    → s.block_id < 2 ^ 16
    → 0 < s.config.parity_shards
    → s.config.data_shards + s.config.parity_shards ≤ 256
    → lookup s.block_id blocks ≡ none
    → All (λ a. a.1 < s.config.data_shards + s.config.parity_shards) (arrivals schedule)
    → Distinct (arrivals schedule)
    → length (arrivals schedule) ≡ s.config.data_shards
    → All (IsTimely t) schedule
    → (after : FecReceiver) × (flush rs s
        ≡ ok (flushed rs s r, framing s.config s.block_id 0 (block_of rs s r s.buffer)))
      × (deliver_moments rs blocks
            (map (moment_of (framing s.config s.block_id 0 (block_of rs s r s.buffer))) schedule)
          ≡ ok (after, s.buffer ∷ []))
flush-deliver_moments rs s blocks t schedule r pos fits good id p_pos small fresh inside distinct
      enough timely =
    let c = s.config in
    let data_part = data_block c s.buffer in
    let n = shard_len s.buffer in
    let size = length-data_block c s.buffer fits in
    let block : IsBlock rs c r data_part n s.buffer = record {
      count = size;
      positive = omega (arith, shard_len_pos s.buffer);
      uniform = data_block-Uniform c s.buffer;
      means = collect-data_block c s.buffer (r.parity data_part) good fits;
    } in
    let cells : List (Option Bytes) = replicate (c.data_shards + c.parity_shards) none in
    let whole = length-full rs c r data_part n s.buffer block in
    let (after, runs) =
      deliver_moments-rest rs c r data_part n s.buffer s.block_id block id (omega arith)
        (omega arith) small t schedule blocks cells (rw fresh refl) (rw fresh tt)
        (rw whole at (IsPart-replicate (full rs c r data_part n s.buffer)))
        (fits_fresh (c.data_shards + c.parity_shards) (arrivals schedule) inside) distinct timely
        (omega arith)
        (omega (arith, enough, present-replicate (c.data_shards + c.parity_shards))) in
    (after, flush-block_of rs s r pos fits, runs)
