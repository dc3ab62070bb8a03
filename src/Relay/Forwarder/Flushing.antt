-- ===== src/Relay/Forwarder/Flushing.antt =====
-- src/relay/forwarder.rs, `flush_fec`: what the timer makes of the blocks that are not full.
use entrouter_line.Base.{
  ℕ, ◌+◌, ◌-◌, ◌/◌, ◌%◌, ◌^◌, ◌<◌, ◌≤◌, ◌≡◌, refl, sym, ap, ◌∙◌, inl, inr, Bool, false, List, [],
  ◌∷◌, ◌++◌, append_assoc, append-nil, Option, none, some, ok, ◌>>=◌, OnOk-ok, Bytes, length,
  lookup, string_eq, nat_eq, ltb, retain, Bool-cases, EachValue, ◌==◌, arith,
}
use mathlib.Core.Path.{subst}
use entrouter_line.Relay.Fec.{FecConfig, ReedSolomon}
use entrouter_line.Relay.Fec.Encoder.{Recovers}
use entrouter_line.Relay.FecCodec.{FecSender, FecReceiver, flush_partial, data_block, expire_old}
use entrouter_line.Relay.FecCodec.Sender.{framing, flush-block_of}
use entrouter_line.Relay.FecCodec.Shapes.{IsSender}
use entrouter_line.Relay.Forwarder.{Forwarder, Task}
use entrouter_line.Relay.Forwarder.Invariant.{IsForwarder}
use entrouter_line.Relay.Forwarder.Loop.{flushed, flush_senders, expire_all, flush_fec}
use entrouter_line.Relay.Forwarder.Steps.{flush_fec-IsForwarder}

-- A sender that has nothing buffered stays; another one is empty, and one block further.
abbrev pub emptied : FecSender → List Bytes → FecSender
emptied s [] = s
emptied s (p ∷ ps) = record s {
  block_id = (s.block_id + 1) % 2 ^ 16;
  buffer = [];
  payload_lens = [];
}

abbrev pub emptied_all : List (Bytes × FecSender) → List (Bytes × FecSender)
emptied_all [] = []
emptied_all ((peer_id, s) ∷ senders) = (peer_id, emptied s s.buffer) ∷ emptied_all senders

emptied-buffer :
    (s : FecSender) (buffer : List Bytes) → s.buffer ≡ buffer → (emptied s buffer).buffer ≡ []
emptied-buffer s [] e = e
emptied-buffer s (p ∷ ps) e = refl

emptied_all-buffer :
    (senders : List (Bytes × FecSender)) → EachValue (λ s. s.buffer ≡ []) (emptied_all senders)
emptied_all-buffer [] = tt
emptied_all-buffer ((peer_id, s) ∷ senders) =
    (emptied-buffer s s.buffer refl, emptied_all-buffer senders)

emptied_all_twice :
    (senders : List (Bytes × FecSender))
    → EachValue (λ s. s.buffer ≡ []) senders
    → emptied_all senders ≡ senders
emptied_all_twice [] hs = refl
emptied_all_twice ((peer_id, s) ∷ senders) (h, hs) =
    ap (λ b. (peer_id, emptied s b) ∷ emptied_all senders) h
    ∙ ap (λ l. (peer_id, s) ∷ l) (emptied_all_twice senders hs)

retain_twice : {V : Type 0} (p : V → Bool) (m : List (ℕ × V)) → retain p (retain p m) ≡ retain p m
retain_twice p [] = refl
retain_twice p ((k, v) ∷ m) = elim (Bool-cases (p v)) [
  | inl keep ↦ rw (keep, keep) (ap (λ l. (k, v) ∷ l) (retain_twice p m))
  | inr drop ↦ rw drop (retain_twice p m)
]

expire_all_twice :
    (rs : ReedSolomon) (now : ℕ) (receivers : List (Bytes × FecReceiver))
    → expire_all rs now (expire_all rs now receivers) ≡ expire_all rs now receivers
unfolding expire_all expire_old
expire_all_twice rs now [] = refl
expire_all_twice rs now ((peer_id, r) ∷ receivers) =
    ap (λ (x : FecReceiver). (peer_id, x) ∷ expire_all rs now (expire_all rs now receivers))
      (retain_twice (λ b. ltb ((now - b.created_at) / 1_000_000) 500) r)
    ∙ ap (λ l. (peer_id, expire_old now 500 r) ∷ l) (expire_all_twice rs now receivers)

module _ (rs : ReedSolomon) (c : FecConfig) (r : Recovers rs c.data_shards c.parity_shards) where
  -- The shards of what is buffered.
  abbrev pub due_shards : ℕ → List Bytes → Option (List (ℕ × Bytes))
  due_shards block_id [] = none
  due_shards block_id (p ∷ ps) =
      let block = data_block c (p ∷ ps) in some (framing c block_id 0 (block ++ r.parity block))

  abbrev pub due : Option ℕ → Option (List (ℕ × Bytes)) → List Task
  due (some i) (some shards) = (i, shards) ∷ []
  due (some i) none = []
  due none shards = []

  -- One task for each peer that has a tunnel and something buffered for it.
  abbrev pub due_tasks : List (Bytes × ℕ) → List (Bytes × FecSender) → List Task
  due_tasks tunnels [] = []
  due_tasks tunnels ((peer_id, s) ∷ senders) =
      due (lookup peer_id tunnels) (due_shards s.block_id s.buffer) ++ due_tasks tunnels senders

  due-none : (o : Option ℕ) → due o none ≡ []
  due-none none = refl
  due-none (some i) = refl

  due_tasks_empty :
      (tunnels : List (Bytes × ℕ)) (senders : List (Bytes × FecSender))
      → EachValue (λ s. s.buffer ≡ []) senders
      → due_tasks tunnels senders ≡ []
  due_tasks_empty tunnels [] hs = refl
  due_tasks_empty tunnels ((peer_id, s) ∷ senders) (h, hs) =
      ap (λ b. due (lookup peer_id tunnels) (due_shards s.block_id b) ++ due_tasks tunnels senders)
        h
      ∙ ap (λ l. l ++ due_tasks tunnels senders) (due-none (lookup peer_id tunnels))
      ∙ due_tasks_empty tunnels senders hs

  flushed-due :
      (o : Option ℕ) (shards : Option (List (ℕ × Bytes))) (tasks : List Task)
      → flushed rs o shards tasks ≡ tasks ++ due o shards
  unfolding flushed
  flushed-due none shards tasks = sym (append-nil tasks)
  flushed-due (some i) none tasks = sym (append-nil tasks)
  flushed-due (some i) (some shards) tasks = refl

  flush_fields :
      (block_id : ℕ) (buffer : List Bytes) (payload_lens : List ℕ)
      → length buffer ≤ c.data_shards
      → let s : FecSender = record {
        config = c;
        block_id = block_id;
        buffer = buffer;
        payload_lens = payload_lens;
      } in
        flush_partial rs s ≡ ok (emptied s buffer, due_shards block_id buffer)
  unfolding flush_partial
  flush_fields block_id [] payload_lens fits = refl
  flush_fields block_id (p ∷ ps) payload_lens fits =
      let s : FecSender = record {
        config = c;
        block_id = block_id;
        buffer = p ∷ ps;
        payload_lens = payload_lens;
      } in
      let more : (length (p ∷ ps) == 0) ≡ false = ground arith in
      rw (more, flush-block_of rs s r (omega arith) fits) refl

  flush_partial-due :
      (s : FecSender)
      → 0 < c.data_shards
      → IsSender c s
      → flush_partial rs s ≡ ok (emptied s s.buffer, due_shards s.block_id s.buffer)
  flush_partial-due s pos h =
      let same : s ≡ record s { config = c } = ap (λ d. record s { config = d }) h.configured in
      ap (flush_partial rs) same
      ∙ flush_fields s.block_id s.buffer s.payload_lens (omega (arith, h.partial, pos))
      ∙ sym (ap (λ t. ok (emptied t t.buffer, due_shards t.block_id t.buffer)) same)

  flush_senders-due :
      (tunnels : List (Bytes × ℕ)) (senders : List (Bytes × FecSender)) (tasks : List Task)
      → 0 < c.data_shards
      → EachValue (IsSender c) senders
      → flush_senders rs tunnels senders tasks
        ≡ ok (emptied_all senders, tasks ++ due_tasks tunnels senders)
  unfolding flush_senders
  flush_senders-due tunnels [] tasks pos hs = ap (λ l. ok ([], l)) (sym (append-nil tasks))
  flush_senders-due tunnels ((peer_id, s) ∷ senders) tasks pos (h, hs) =
      let o = lookup peer_id tunnels in
      let shards = due_shards s.block_id s.buffer in
      rw (flush_partial-due s pos h) (
        ap
          (λ (l : List Task). flush_senders rs tunnels senders l >>= λ q.
            ok ((peer_id, emptied s s.buffer) ∷ q.0, q.1))
          (flushed-due o shards tasks)
        ∙ rw (flush_senders-due tunnels senders (tasks ++ due o shards) pos hs) (
            ap (λ l. ok ((peer_id, emptied s s.buffer) ∷ emptied_all senders, l))
              (append_assoc tasks (due o shards) (due_tasks tunnels senders))))

  abbrev pub ticked : ℕ → Forwarder → Forwarder
  ticked now f = record f {
    fec_senders = emptied_all f.fec_senders;
    tasks = f.tasks ++ due_tasks f.tunnels f.fec_senders;
    fec_receivers = expire_all rs now f.fec_receivers;
  }

  flush_fec-ticked :
      (now : ℕ) (f : Forwarder)
      → f.fec_config ≡ c
      → 0 < c.data_shards
      → IsForwarder f
      → flush_fec rs now f ≡ ok (ticked now f)
  unfolding flush_fec
  flush_fec-ticked now f configured pos h =
      let senders : EachValue (IsSender c) f.fec_senders =
        subst (λ (d : FecConfig). EachValue (IsSender d) f.fec_senders) configured h.senders in
      rw (flush_senders-due f.tunnels f.fec_senders f.tasks pos senders) refl

  ticked_twice : (now : ℕ) (f : Forwarder) → ticked now (ticked now f) ≡ ticked now f
  ticked_twice now f =
      let f' = ticked now f in
      let empty = emptied_all-buffer f.fec_senders in
      let nothing_due =
        ap (λ l. f'.tasks ++ l) (due_tasks_empty f.tunnels f'.fec_senders empty)
        ∙ append-nil f'.tasks in
      rw
        (
          emptied_all_twice f'.fec_senders empty,
          nothing_due,
          expire_all_twice rs now f.fec_receivers,
        )
        refl

  -- In a state that keeps the invariant, with an erasure code for its configuration, the timer's flush
  -- returns. All that was buffered for a peer with a tunnel is a task over its tunnel then, as one
  -- block; what was buffered for another is lost. No sender has anything buffered, old blocks expire in
  -- the receivers, and nothing else changes; flushed again at the same time, the state stays as it is.
  pub flush_fec-due :
      (now : ℕ) (f : Forwarder)
      → f.fec_config ≡ c
      → 0 < c.data_shards
      → IsForwarder f
      → let f' = record f {
        fec_senders = emptied_all f.fec_senders;
        tasks = f.tasks ++ due_tasks f.tunnels f.fec_senders;
        fec_receivers = expire_all rs now f.fec_receivers;
      } in
        (flush_fec rs now f ≡ ok f')
        × EachValue (λ s. s.buffer ≡ []) f'.fec_senders
        × (flush_fec rs now f' ≡ ok f')
  flush_fec-due now f configured pos h =
      let once = flush_fec-ticked now f configured pos h in
      let kept = OnOk-ok (flush_fec-IsForwarder rs now f h) once in
      (
        once,
        emptied_all-buffer f.fec_senders,
        flush_fec-ticked now (ticked now f) configured pos kept ∙ ap ok (ticked_twice now f),
      )
