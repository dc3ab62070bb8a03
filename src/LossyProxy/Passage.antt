-- ===== src/LossyProxy/Passage.antt =====
-- src/bin/lossy_proxy.rs: what reaches the target, and the counters.
use entrouter_line.Base.{
  ℕ, ◌+◌, ◌%◌, ◌^◌, ◌≡◌, ◌≢◌, refl, sym, ◌∙◌, inl, inr, Bool, true, false, not, ◌&&◌, List, [], ◌∷◌,
  ◌++◌, Option, none, some, Bytes, take, ◌==◌, ==_iff, if◌then◌else◌, Bool-cases, some-injective,
  arith,
}
use mathlib.Core.Bool.{false≢true}
use entrouter_line.LossyProxy.{
  Args, Proxy, Event, failed, datagram, Output, buffer_size, to_sender, unwrap_or, pass, step, run,
}

-- What was sent to an address, in its order.
unfoldable pub sent_to : ℕ → Output → List Bytes
sent_to addr [] = []
sent_to addr ((dest, bytes) ∷ out) =
    let rest = sent_to addr out in if dest == addr then bytes ∷ rest else rest

unfoldable pub all_sent_to : ℕ → List Output → List Bytes
all_sent_to addr [] = []
all_sent_to addr (out ∷ outs) = sent_to addr out ++ all_sent_to addr outs

-- The datagrams of the clients that chance lets pass.
unfoldable pub passed : Args → List Event → List Bytes
passed args [] = []
passed args (failed ∷ events) = passed args events
passed args (datagram from bytes drop ∷ events) =
    let rest = passed args events in
    if not (from == args.target) && not drop then take buffer_size bytes ∷ rest else rest

-- The sender that is remembered is not the target.
abbrev pub IsClient : Args → Proxy → Type 0
IsClient args p = (addr : ℕ) → p.sender_addr ≡ some addr → addr ≢ args.target

sent_to_other :
    (target : ℕ) (dest : ℕ) (packet : Bytes)
    → dest ≢ target
    → sent_to target ((dest, packet) ∷ []) ≡ []
unfolding sent_to
sent_to_other target dest packet ne = ground (arith, ==_iff dest target)

sent_to_same : (target : ℕ) (packet : Bytes) → sent_to target ((target, packet) ∷ []) ≡ packet ∷ []
unfolding sent_to
sent_to_same target packet = ground (arith, ==_iff target target)

sent_to_client :
    (args : Args) (packet : Bytes) (sender : Option ℕ)
    → ((addr : ℕ) → sender ≡ some addr → addr ≢ args.target)
    → sent_to args.target (to_sender packet sender) ≡ []
unfolding sent_to
sent_to_client args packet none client = refl
sent_to_client args packet (some addr) client =
    sent_to_other args.target addr packet (client addr refl)

unwrap_or_client :
    (args : Args) (sender : Option ℕ)
    → args.listen ≢ args.target
    → ((addr : ℕ) → sender ≡ some addr → addr ≢ args.target)
    → unwrap_or args.listen sender ≢ args.target
unwrap_or_client args none ne client = ne
unwrap_or_client args (some addr) ne client = client addr refl

pass-IsClient :
    (args : Args) (bidirectional : Bool) (p : Proxy) (from : ℕ) (packet : Bytes)
    (is_from_target drop : Bool)
    → args.listen ≢ args.target
    → IsClient args p
    → (is_from_target ≡ false → from ≢ args.target)
    → IsClient args (pass args bidirectional p from packet is_from_target drop).0
      × (sent_to args.target (pass args bidirectional p from packet is_from_target drop).1
          ≡ (if not is_from_target && not drop then packet ∷ [] else []))
unfolding pass sent_to
pass-IsClient args bi p from packet false true ne client out =
    (λ addr e t. out refl (some-injective e ∙ t), refl)
pass-IsClient args bi p from packet false false ne client out =
    (λ addr e t. out refl (some-injective e ∙ t), sent_to_same args.target packet)
pass-IsClient args false p from packet true drop ne client out =
    (client, sent_to_client args packet p.sender_addr client)
pass-IsClient args true p from packet true true ne client out = (client, refl)
pass-IsClient args true p from packet true false ne client out = (
  client,
  sent_to_other args.target (unwrap_or args.listen p.sender_addr) packet
      (unwrap_or_client args p.sender_addr ne client),
)

step-IsClient :
    (args : Args) (p : Proxy) (e : Event)
    → args.listen ≢ args.target
    → IsClient args p
    → IsClient args (step args p e).0
      × (sent_to args.target (step args p e).1 ≡ passed args (e ∷ []))
unfolding step passed sent_to
step-IsClient args p failed ne client = (client, refl)
step-IsClient args p (datagram from bytes drop) ne client =
    pass-IsClient args args.bidirectional (record p { total = (p.total + 1) % 2 ^ 64 }) from
      (take buffer_size bytes) (from == args.target) drop ne client
      (λ other same. false≢true (sym other ∙ (==_iff from args.target).1 same))

passed-cons :
    (args : Args) (e : Event) (events : List Event)
    → passed args (e ∷ events) ≡ passed args (e ∷ []) ++ passed args events
unfolding passed
passed-cons args failed events = refl
passed-cons args (datagram from bytes drop) events =
    elim (Bool-cases (not (from == args.target) && not drop)) [
      | inl keep ↦ rw keep refl
      | inr lose ↦ rw lose refl
    ]

-- If the proxy does not listen on the target's own address, the target gets exactly the datagrams of
-- the clients that chance lets pass, each once and in their order, cut to 2048 bytes; nothing that
-- the target itself sends comes back to it.
pub run-passed :
    (args : Args) (p : Proxy) (events : List Event)
    → args.listen ≢ args.target
    → IsClient args p
    → all_sent_to args.target (run args p events).1 ≡ passed args events
unfolding run all_sent_to passed
run-passed args p [] ne client = refl
run-passed args p (e ∷ events) ne client =
    let (client', now) = step-IsClient args p e ne client in
    rw (now, run-passed args (step args p e).0 events ne client') (sym (passed-cons args e events))
