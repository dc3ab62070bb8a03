-- ===== src/Relay/FecCodec/Shapes.antt =====
-- src/relay/fec_codec.rs: what the sender and the receiver keep true of their fields.
use entrouter_line.Base.{
  ℕ, ◌+◌, ◌%◌, ◌^◌, max, ◌<◌, ◌≡◌, refl, sym, ap, ◌∙◌, inl, inr, Bool, true, false, ◌||◌, List, [],
  ◌∷◌, ◌++◌, Option, none, some, OnOk, on_ok, OnOk-any, OnOk-bind, Bytes, length, length-append,
  length-set, length-replicate, get_or, leb, ◌==◌, is_some, Bool-cases, lookup, nat_eq, EachValue,
  EachValue-lookup, EachValue-insert, EachValue-remove, EachValue-retain, Option-cases, drop, arith,
}
use mathlib.Core.Bool.{true≢false}
use entrouter_line.Relay.Fec
use entrouter_line.Relay.Fec.{FecConfig, ReedSolomon}
use entrouter_line.Relay.Fec.Encoder.{present}
use entrouter_line.Relay.FecCodec.{
  FecSender, FecReceiver, PendingBlock, ShardHeader, new_sender, new_block, flush, flush_some,
  submit, flush_partial, insert_shard, holds, entry_or_new, reconstruct, receive_at, receive_shard,
  expire_old, decode_shard_header, data_block, frame_shards, shard_header_size,
}
use entrouter_line.Relay.FecCodec.Cells.{IsFree, present-set, present-replicate}

-- The configuration stays; a block that is full does not stay in the buffer, and the length of each
-- payload is kept beside it; the block number is a `u16`.
pub record IsSender (c : FecConfig) (s : FecSender) : Type 0 where
  pub configured : s.config ≡ c
  pub partial : length s.buffer < max 1 c.data_shards
  pub measured : length s.payload_lens ≡ length s.buffer
  pub numbered : s.block_id < 2 ^ 16

pub new_sender-IsSender : (c : FecConfig) → IsSender c (new_sender c)
unfolding new_sender
new_sender-IsSender c = record {
  configured = refl;
  partial = omega arith;
  measured = refl;
  numbered = omega arith;
}

module _ (rs : ReedSolomon) (c : FecConfig) where
  flush-IsSender : (s : FecSender) → s.config ≡ c → OnOk (λ q. IsSender c q.0) (flush rs s)
  unfolding flush
  flush-IsSender s configured = OnOk-bind (OnOk-any (Fec.new_encoder rs s.config)) λ encoder _.
      OnOk-bind (OnOk-any (Fec.encode rs encoder (data_block s.config s.buffer))) λ shards _.
        OnOk-bind (OnOk-any (frame_shards s.config s.block_id 0 shards)) λ output _. on_ok (record {
          configured = configured;
          partial = omega arith;
          measured = refl;
          numbered = omega arith;
        })

  flush_some-IsSender :
      (s : FecSender) → s.config ≡ c → OnOk (λ q. IsSender c q.0) (flush_some rs s)
  unfolding flush_some
  flush_some-IsSender s configured = OnOk-bind (flush-IsSender s configured) λ q h. on_ok h

  pub submit-IsSender :
      (s : FecSender) (payload : Bytes)
      → IsSender c s
      → OnOk (λ q. IsSender c q.0) (submit rs s payload)
  unfolding submit
  submit-IsSender s payload h =
      let more : FecSender = record s {
        buffer = s.buffer ++ payload ∷ [];
        payload_lens = s.payload_lens ++ (length payload % 2 ^ 16) ∷ [];
      } in
      elim (Bool-cases (leb s.config.data_shards (length more.buffer))) [
        | inl full ↦ rw full (flush_some-IsSender more h.configured)
        | inr room ↦
            let k = ap (λ (d : FecConfig). d.data_shards) h.configured in
            let space : length more.buffer < s.config.data_shards = ground (arith, room) in
            rw room (
              on_ok (record {
                configured = h.configured;
                partial = omega (arith, space, k);
                measured = omega (
                  arith,
                  length-append s.buffer (payload ∷ []),
                  h.measured,
                  length-append s.payload_lens ((length payload % 2 ^ 16) ∷ []),
                );
                numbered = h.numbered;
              }))
      ]

  pub flush_partial-IsSender :
      (s : FecSender) → IsSender c s → OnOk (λ q. IsSender c q.0) (flush_partial rs s)
  unfolding flush_partial
  flush_partial-IsSender s h = elim (Bool-cases (length s.buffer == 0)) [
    | inl empty ↦ rw empty (on_ok h)
    | inr some' ↦ rw some' (flush_some-IsSender s h.configured)
  ]

-- A block has a cell for each of its shards, and counts those that it holds.
pub record IsShaped (b : PendingBlock) : Type 0 where
  pub cells : length b.shards ≡ b.data_shards + b.parity_shards
  pub counted : present b.shards ≡ b.received

-- A block that waits cannot be reconstructed yet.
unfoldable pub IsPending : PendingBlock → Type 0
IsPending b = IsShaped b × (b.received < b.data_shards)

abbrev pub IsReceiver : FecReceiver → Type 0
IsReceiver r = EachValue IsPending r

new_block-IsShaped : (now k p : ℕ) → IsShaped (new_block now k p)
unfolding new_block
new_block-IsShaped now k p = record {
  cells = length-replicate (k + p) none;
  counted = present-replicate (k + p);
}

entry-IsShaped :
    (now : ℕ) (h : ShardHeader) (o : Option PendingBlock)
    → ((b : PendingBlock) → o ≡ some b → IsPending b)
    → IsShaped (entry_or_new now h o)
unfolding IsPending
entry-IsShaped now h none p = new_block-IsShaped now h.data_shards h.parity_shards
entry-IsShaped now h (some b) p = (p b refl).0

||-false : (a b : Bool) → (a || b) ≡ false → (a ≡ false) × (b ≡ false)
||-false false b e = (refl, e)
||-false true b e = absurd (true≢false e)

holds-IsFree : (shards : List (Option Bytes)) (i : ℕ) → holds shards i ≡ false → IsFree shards i
holds-IsFree shards i h = elim (Option-cases (get_or shards i none)) [
  | inl free ↦ free
  | inr (s, held) ↦ absurd (true≢false (sym (ap is_some held) ∙ h))
]

insert_shard-IsShaped :
    (b : PendingBlock) (i : ℕ) (shard : Bytes)
    → IsShaped b
    → IsShaped (insert_shard b i shard).0
      × ((insert_shard b i shard).1 ≡ false
          → (insert_shard b i shard).0.received < (insert_shard b i shard).0.data_shards)
unfolding insert_shard
insert_shard-IsShaped b i shard h =
    let size = b.data_shards + b.parity_shards in
    elim (Bool-cases (leb size i || holds b.shards i)) [
      | inl refused ↦ rw refused (h, λ short. ground (arith, short))
      | inr taken ↦
          let (inside, free) = ||-false (leb size i) (holds b.shards i) taken in
          let fits : i < size = ground (arith, inside) in
          rw taken (
            record {
              cells = length-set b.shards i (some shard) ∙ h.cells;
              counted = omega (
                arith,
                present-set b.shards i shard (omega (arith, fits, h.cells))
                    (holds-IsFree b.shards i free),
                h.counted,
              );
            },
            λ short. ground (arith, short),
          )
    ]

module _ (rs : ReedSolomon) where
  receive_at-IsReceiver :
      (now : ℕ) (r : FecReceiver) (h : ShardHeader) (shard : Bytes)
      → IsReceiver r
      → OnOk (λ q. IsReceiver q.0) (receive_at rs now r h shard)
  unfolding receive_at IsPending
  receive_at-IsReceiver now r h shard each =
      let block = entry_or_new now h (lookup h.block_id r) in
      let shaped =
        entry-IsShaped now h (lookup h.block_id r)
          (λ b found. EachValue-lookup IsPending h.block_id b r found each) in
      let (shaped', lacks) = insert_shard-IsShaped block h.shard_idx shard shaped in
      let block' = (insert_shard block h.shard_idx shard).0 in
      elim (Bool-cases (insert_shard block h.shard_idx shard).1) [
        | inl enough ↦ rw enough (
            OnOk-bind (OnOk-any (reconstruct rs block'))
              λ payloads _. on_ok (EachValue-remove IsPending h.block_id r each))
        | inr few ↦
            rw few
              (on_ok (EachValue-insert IsPending h.block_id block' r (shaped', lacks few) each))
      ]

  pub receive_shard-IsReceiver :
      (now : ℕ) (r : FecReceiver) (payload : Bytes)
      → IsReceiver r
      → OnOk (λ q. IsReceiver q.0) (receive_shard rs now r payload)
  unfolding receive_shard
  receive_shard-IsReceiver now r payload each = elim (Option-cases (decode_shard_header payload)) [
    | inl short ↦ rw (short, receive_shard) (on_ok each)
    | inr (h, decoded) ↦
        rw (decoded, receive_shard)
          (receive_at-IsReceiver now r h (drop shard_header_size payload) each)
  ]

pub expire_old-IsReceiver :
    (now age : ℕ) (r : FecReceiver) → IsReceiver r → IsReceiver (expire_old now age r)
unfolding expire_old
expire_old-IsReceiver now age r each = EachValue-retain IsPending _ r each
