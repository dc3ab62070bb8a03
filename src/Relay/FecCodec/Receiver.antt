-- ===== src/Relay/FecCodec/Receiver.antt =====
-- src/relay/fec_codec.rs, `FecReceiver`: one shard of a block that is being assembled.
use entrouter_line.Base.{
  ℕ, ◌+◌, ◌<◌, ◌≡◌, refl, ap, sym, ◌∙◌, List, ◌++◌, map, Option, none, some, Bytes, ok, length,
  get_elem?, set, replicate, arith, leb, lt→leb, le→leb, le→ltb, insert, remove, lookup, nat_eq,
  length-append,
}
use entrouter_line.Relay.Fec.{FecConfig, ReedSolomon, new_encoder}
use entrouter_line.Relay.Fec
use entrouter_line.Relay.Fec.Encoder.{IsPart, present, Recovers, Uniform}
use entrouter_line.Relay.FecCodec.Cells.{
  IsFree, IsPart-set, present-set, length-IsPart, present-replicate,
}
use entrouter_line.Relay.FecCodec.{
  ShardHeader, PendingBlock, FecReceiver, new_block, insert_shard, entry_or_new, reconstruct,
  receive_at, collect,
}

-- What the entry of a block with `k` data and `p` parity shards stands for: the cells `got`.
abbrev pub Current : ℕ → ℕ → Option PendingBlock → List (Option Bytes) → Type 0
Current k p none got = got ≡ replicate (k + p) none
Current k p (some b) got =
    (b.data_shards ≡ k) × (b.parity_shards ≡ p) × (b.shards ≡ got) × (b.received ≡ present got)

entry-Current :
    (k p now : ℕ) (h : ShardHeader) (o : Option PendingBlock) (got : List (Option Bytes))
    → h.data_shards ≡ k
    → h.parity_shards ≡ p
    → Current k p o got
    → Current k p (some (entry_or_new now h o)) got
unfolding new_block
entry-Current k p now h none got ek ep c =
    (ek, ep, rw (ek, ep) (sym c), sym (ap present c ∙ present-replicate (k + p)))
entry-Current k p now h (some b) got ek ep c = c

insert_shard_free :
    (k p : ℕ) (b : PendingBlock) (got : List (Option Bytes)) (i : ℕ) (s : Bytes)
    → Current k p (some b) got
    → i < k + p
    → IsFree got i
    → length got ≡ k + p
    → (b' : PendingBlock) × (insert_shard b i s ≡ (b', leb k (present got + 1)))
      × Current k p (some b') (set got i (some s))
      × (b'.created_at ≡ b.created_at)
unfolding insert_shard
insert_shard_free k p b got i s (ek, ep, eg, er) lt free len = (
  record b { shards = set got i (some s); received = b.received + 1 },
  rw (ek, ep, eg, er, lt→leb (k + p) i lt, free),
  (ek, ep, refl, omega (arith, er, present-set got i s)),
  refl,
)

-- A block: `data` shards that stand for `payloads`, and what the code makes of them.
module _ (rs : ReedSolomon) (c : FecConfig) (r : Recovers rs c.data_shards c.parity_shards)
    (data_part : List Bytes) (n : ℕ) (payloads : List Bytes) where
  abbrev pub full : List Bytes
  full = data_part ++ r.parity data_part

  pub record IsBlock : Type 0 where
    pub count : length data_part ≡ c.data_shards
    pub positive : 0 < n
    pub uniform : Uniform n data_part
    pub means : collect c.data_shards (map some full) ≡ ok payloads

  pub length-full : IsBlock → length full ≡ c.data_shards + c.parity_shards
  length-full b =
      omega
        (arith, length-append data_part (r.parity data_part), r.parity_length data_part, b.count)

  reconstruct-payloads :
      (b : PendingBlock) (got : List (Option Bytes))
      → IsBlock
      → Current c.data_shards c.parity_shards (some b) got
      → IsPart got full
      → present got ≡ c.data_shards
      → reconstruct rs b ≡ ok (some payloads)
  unfolding reconstruct new_encoder Fec.reconstruct
  reconstruct-payloads b got block (ek, ep, eg, er) part enough =
      let k = c.data_shards in
      rw (
        ek,
        ep,
        eg,
        er,
        enough,
        le→ltb k k (omega arith),
        r.accepted,
        r.restores n data_part got block.count block.positive block.uniform part (omega arith),
        ek,
        block.means,
      )

  -- The arrival of one shard that is missing: it is kept, or it completes the block.
  module _ (now : ℕ) (h : ShardHeader) (blocks : FecReceiver) (got : List (Option Bytes))
      (s : Bytes) (block : IsBlock) (ek : h.data_shards ≡ c.data_shards)
      (ep : h.parity_shards ≡ c.parity_shards)
      (cur : Current c.data_shards c.parity_shards (lookup h.block_id blocks) got)
      (part : IsPart got full) (this : get_elem? full h.shard_idx ≡ some s)
      (inside : h.shard_idx < c.data_shards + c.parity_shards) (free : IsFree got h.shard_idx) where
    abbrev after : List (Option Bytes)
    after = set got h.shard_idx (some s)

    size : length got ≡ c.data_shards + c.parity_shards
    size = length-IsPart got full part ∙ length-full block

    pub receive_at_more :
        present got + 1 < c.data_shards
        → (b : PendingBlock) × (receive_at rs now blocks h s
            ≡ ok (insert h.block_id b blocks, none))
          × Current c.data_shards c.parity_shards (some b) after
          × (b.created_at ≡ (entry_or_new now h (lookup h.block_id blocks)).created_at)
    unfolding receive_at
    receive_at_more few =
        let k = c.data_shards in
        let p = c.parity_shards in
        let entry = entry_or_new now h (lookup h.block_id blocks) in
        let known = entry-Current k p now h (lookup h.block_id blocks) got ek ep cur in
        let (b, run, c', opened) =
          insert_shard_free k p entry got h.shard_idx s known inside free size in
        (b, rw (run, lt→leb k (present got + 1) few), c', opened)

    pub receive_at_last :
        present got + 1 ≡ c.data_shards
        → receive_at rs now blocks h s ≡ ok (remove h.block_id blocks, some payloads)
    unfolding receive_at
    receive_at_last last =
        let k = c.data_shards in
        let p = c.parity_shards in
        let entry = entry_or_new now h (lookup h.block_id blocks) in
        let known = entry-Current k p now h (lookup h.block_id blocks) got ek ep cur in
        let (b, run, c', opened) =
          insert_shard_free k p entry got h.shard_idx s known inside free size in
        let done =
          reconstruct-payloads b after block c' (IsPart-set got full h.shard_idx s part this)
            (present-set got h.shard_idx s (omega (arith, size)) free ∙ omega (arith, last)) in
        rw (run, le→leb k (present got + 1) (omega (arith, last)), done)
