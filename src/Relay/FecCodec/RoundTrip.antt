-- ===== src/Relay/FecCodec/RoundTrip.antt =====
-- src/relay/fec_codec.rs: the blocks that `FecSender` sends, through `FecReceiver`.
use entrouter_line.Base.{
  ℕ, zero, suc, ◌+◌, ◌^◌, ◌≤◌, ◌<◌, ◌≡◌, ◌≢◌, refl, ap, sym, ◌∙◌, List, [], ◌∷◌, ◌++◌, map, Option,
  none, some, Bytes, All, Run, ok, ◌>>=◌, length, get_elem?, get_or, set, replicate, arith, insert,
  remove, lookup, nat_eq, lookup-insert_self, lookup-remove_self, lookup-insert_ne,
  lookup-remove_ne, from_le, to_le,
}
use native.Mathlib.Nat.{mod-eq_of_lt}
use entrouter_line.Relay.Fec.{FecConfig, ReedSolomon}
use entrouter_line.Relay.Fec.Encoder.{IsPart, present, Recovers}
use entrouter_line.Relay.FecCodec.Cells.{
  IsFree, IsPart-set, IsFree-set, present-set, length-IsPart, present-replicate, IsPart-replicate,
  IsFree-replicate, get_elem?-some,
}
use entrouter_line.Relay.FecCodec.Header.{shard_header, header_at, decode_shard_header-cut}
use entrouter_line.Relay.FecCodec.Sender.{
  framing, shard_len, shard_len_pos, data_block-Uniform, length-data_block, block_of, flushed,
  flush-block_of,
}
use entrouter_line.Relay.FecCodec.Payloads.{IsPayload, collect-data_block}
use entrouter_line.Relay.FecCodec.Receiver.{
  Current, full, IsBlock, length-full, receive_at_more, receive_at_last,
}
use entrouter_line.Relay.FecCodec.{
  ShardHeader, FecReceiver, FecSender, receive_at, receive_shard, data_block, flush,
}

abbrev pub found : Option (List Bytes) → List (List Bytes)
found none = []
found (some payloads) = payloads ∷ []

-- Shards given to a receiver one by one, each with the time of its arrival, and the blocks that
-- come out.
unfoldable pub deliver :
    ReedSolomon → FecReceiver → List (ℕ × Bytes) → Run (FecReceiver × List (List Bytes))
deliver rs blocks [] = ok (blocks, [])
deliver rs blocks ((now, shard) ∷ shards) = do
  (blocks', out) ← receive_shard rs now blocks shard
  (blocks'', outs) ← deliver rs blocks' shards
  ok (blocks'', found out ++ outs)

-- Frame `i` of a block, arriving at a time.
abbrev pub arrive : List (ℕ × Bytes) → ℕ × ℕ → ℕ × Bytes
arrive frames (now, i) = (now, (get_or frames i (0, [])).1)

-- No index occurs twice.
abbrev pub Distinct : List (ℕ × ℕ) → Type 0
Distinct [] = Unit {0}
Distinct (a ∷ as') = All (λ b. b.1 ≢ a.1) as' × Distinct as'

get_or-framing :
    (c : FecConfig) (id j i : ℕ) (shards : List Bytes) (s : Bytes) (m : ℕ)
    → get_elem? shards i ≡ some s
    → j + i ≡ m
    → (get_or (framing c id j shards) i (0, [])).1 ≡ shard_header (header_at c id m s) ++ s
get_or-framing c id j i [] s m e k = cc
get_or-framing c id j zero (x ∷ shards) s m e k =
    let same : j ≡ m = omega arith in let eq : x ≡ s = cc in rw (same, eq)
get_or-framing c id j (suc i) (x ∷ shards) s m e k =
    get_or-framing c id (suc j) i shards s m e (omega arith)

-- The header of a frame, as it is read back.
abbrev read_back : FecConfig → ℕ → ℕ → Bytes → ShardHeader
read_back c id i s =
    let h = header_at c id i s in record h { original_len = from_le (to_le 2 h.original_len) }

receive_shard-frame :
    (rs : ReedSolomon) (c : FecConfig) (now id i : ℕ) (s : Bytes) (blocks : FecReceiver)
    → id < 2 ^ 16
    → receive_shard rs now blocks (shard_header (header_at c id i s) ++ s)
      ≡ receive_at rs now blocks (read_back c id i s) s
unfolding receive_shard
receive_shard-frame rs c now id i s blocks small =
    rw (decode_shard_header-cut (header_at c id i s) s small, receive_shard)

module _ (rs : ReedSolomon) (c : FecConfig) (r : Recovers rs c.data_shards c.parity_shards)
    (data_part : List Bytes) (n : ℕ) (payloads : List Bytes) (id : ℕ)
    (block : IsBlock rs c r data_part n payloads) (small_id : id < 2 ^ 16)
    (small_k : c.data_shards < 256) (small_p : c.parity_shards < 256)
    (small : c.data_shards + c.parity_shards ≤ 256) where
  abbrev pub shards : List Bytes
  shards = full rs c r data_part n payloads

  abbrev frames : List (ℕ × Bytes)
  frames = framing c id 0 shards

  abbrev pub Fits : List (Option Bytes) → ℕ × ℕ → Type 0
  Fits got a = (a.1 < c.data_shards + c.parity_shards) × IsFree got a.1

  pub Fits-set :
      (got : List (Option Bytes)) (i : ℕ) (s : Bytes) (as' : List (ℕ × ℕ))
      → All (λ b. b.1 ≢ i) as'
      → All (Fits got) as'
      → All (Fits (set got i (some s))) as'
  Fits-set got i s [] ne fits = tt
  Fits-set got i s (a ∷ as') ne fits =
      ((fits.0.0, IsFree-set got i a.1 s ne.0 fits.0.1), Fits-set got i s as' ne.1 fits.1)

  -- The header of frame `i`, with no cast in it.
  unfoldable pub clean : ℕ → Bytes → ShardHeader
  clean i s = record {
    block_id = id;
    shard_idx = i;
    data_shards = c.data_shards;
    parity_shards = c.parity_shards;
    original_len = from_le (to_le 2 (header_at c id i s).original_len);
  }

  clean_lem : (i : ℕ) (s : Bytes) → i < 256 → read_back c id i s ≡ clean i s
  unfolding clean
  clean_lem i s h = rw (
    mod-eq_of_lt {n = i} {m = 256} h,
    mod-eq_of_lt {n = c.data_shards} {m = 256} small_k,
    mod-eq_of_lt {n = c.parity_shards} {m = 256} small_p,
  )

  pub receive_shard-arrive :
      (now i : ℕ) (s : Bytes) (blocks : FecReceiver)
      → get_elem? shards i ≡ some s
      → i < c.data_shards + c.parity_shards
      → receive_shard rs now blocks (arrive frames (now, i)).1
        ≡ receive_at rs now blocks (clean i s) s
  receive_shard-arrive now i s blocks this inside =
      ap (receive_shard rs now blocks) (get_or-framing c id 0 i shards s i this (omega arith))
      ∙ receive_shard-frame rs c now id i s blocks small_id
      ∙ ap (λ h. receive_at rs now blocks h s) (clean_lem i s (omega arith))

  -- The rest of the shards that the block needs, in any order.
  deliver-rest :
      (as' : List (ℕ × ℕ)) (blocks : FecReceiver) (got : List (Option Bytes))
      → Current c.data_shards c.parity_shards (lookup id blocks) got
      → IsPart got shards
      → All (Fits got) as'
      → Distinct as'
      → 0 < length as'
      → present got + length as' ≡ c.data_shards
      → (after : FecReceiver) × (deliver rs blocks (map (arrive frames) as')
          ≡ ok (after, payloads ∷ []))
        × (lookup id after ≡ none)
        × ((j : ℕ) → j ≢ id → lookup j after ≡ lookup j blocks)
  unfolding deliver clean
  deliver-rest [] blocks got cur part fits distinct pos sum = absurd (omega arith)
  deliver-rest ((now, i) ∷ []) blocks got cur part fits distinct pos sum =
      let (s, this) =
        get_elem?-some shards i
          (omega (arith, fits.0.0, length-full rs c r data_part n payloads block)) in
      let last =
        receive_shard-arrive now i s blocks this fits.0.0
        ∙ receive_at_last rs c r data_part n payloads now (clean i s) blocks got s block refl refl
            cur part this fits.0.0 fits.0.1 sum in
      (
        remove id blocks,
        rw last,
        lookup-remove_self id blocks,
        λ j ne. lookup-remove_ne id j blocks (λ e. ne (sym e)),
      )
  deliver-rest ((now, i) ∷ b ∷ as') blocks got cur part fits distinct pos sum =
      let size = length-full rs c r data_part n payloads block in
      let (s, this) = get_elem?-some shards i (omega (arith, fits.0.0, size)) in
      let (entry, run, cur', opened) =
        receive_at_more rs c r data_part n payloads now (clean i s) blocks got s block refl refl cur
          part this fits.0.0 fits.0.1 (omega (arith, sum)) in
      let got' = set got i (some s) in
      let (after, runs, gone, others) =
        deliver-rest (b ∷ as') (insert id entry blocks) got'
          (rw (lookup-insert_self id entry blocks) cur') (IsPart-set got shards i s part this)
          (Fits-set got i s (b ∷ as') distinct.0 fits.1) distinct.1 (omega arith)
          (omega (
            arith,
            sum,
            present-set got i s (omega (arith, length-IsPart got shards part, size, fits.0.0))
                fits.0.1,
          )) in
      (
        after,
        rw (receive_shard-arrive now i s blocks this fits.0.0 ∙ run, runs),
        gone,
        λ j ne. others j ne ∙ lookup-insert_ne id j entry blocks (λ e. ne (sym e)),
      )

pub fits_fresh :
    (n : ℕ) (as' : List (ℕ × ℕ))
    → All (λ a. a.1 < n) as'
    → All (λ a. (a.1 < n) × IsFree (replicate n none) a.1) as'
fits_fresh n [] h = tt
fits_fresh n (a ∷ as') h = ((h.0, IsFree-replicate n a.1), fits_fresh n as' h.1)

-- A block of one to `k` payloads (of 1 to 65535 bytes) that a sender flushes comes out of a receiver
-- once, whole and in its order, after any `k` of its `k + p` shards in any order and at any times;
-- then the receiver holds nothing under its number, and its other blocks are as before. The code is
-- one that keeps its promise, `k + p ≤ 256`, and the receiver starts with no block of that number.
pub flush-deliver :
    (rs : ReedSolomon) (s : FecSender) (blocks : FecReceiver) (as' : List (ℕ × ℕ))
    → Recovers rs s.config.data_shards s.config.parity_shards
    → 0 < length s.buffer
    → length s.buffer ≤ s.config.data_shards
    → All IsPayload s.buffer
    → s.block_id < 2 ^ 16
    → 0 < s.config.parity_shards
    → s.config.data_shards + s.config.parity_shards ≤ 256
    → lookup s.block_id blocks ≡ none
    → All (λ a. a.1 < s.config.data_shards + s.config.parity_shards) as'
    → Distinct as'
    → length as' ≡ s.config.data_shards
    → (t : FecSender) × (frames : List (ℕ × Bytes)) × (after : FecReceiver) × (flush rs s
        ≡ ok (t, frames))
      × (length t.buffer ≡ 0)
      × (deliver rs blocks (map (arrive frames) as') ≡ ok (after, s.buffer ∷ []))
      × (lookup s.block_id after ≡ none)
      × ((j : ℕ) → j ≢ s.block_id → lookup j after ≡ lookup j blocks)
flush-deliver rs s blocks as' r pos fits good id p_pos small fresh inside distinct enough =
    let c = s.config in
    let data_part = data_block c s.buffer in
    let n = shard_len s.buffer in
    let size = length-data_block c s.buffer fits in
    let block : IsBlock rs c r data_part n s.buffer = record {
      count = size;
      positive = omega (arith, shard_len_pos s.buffer);
      uniform = data_block-Uniform c s.buffer;
      means = collect-data_block c s.buffer (r.parity data_part) good fits;
    } in
    let cells : List (Option Bytes) = replicate (c.data_shards + c.parity_shards) none in
    let whole = length-full rs c r data_part n s.buffer block in
    let (after, runs, gone, others) =
      deliver-rest rs c r data_part n s.buffer s.block_id block id (omega arith) (omega arith) small
        as' blocks cells (rw fresh refl)
        (rw whole at (IsPart-replicate (full rs c r data_part n s.buffer)))
        (fits_fresh (c.data_shards + c.parity_shards) as' inside) distinct (omega arith)
        (omega (arith, enough, present-replicate (c.data_shards + c.parity_shards))) in
    (
      flushed rs s r,
      framing c s.block_id 0 (block_of rs s r s.buffer),
      after,
      flush-block_of rs s r pos fits,
      refl,
      runs,
      gone,
      others,
    )
