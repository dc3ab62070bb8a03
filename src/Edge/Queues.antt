-- ===== src/Edge/Queues.antt =====
-- src/edge: the order and the bound of what waits for a client, and fresh flow identifiers.
use entrouter_line.Base.{
  ℕ, zero, suc, ◌+◌, ◌%◌, ◌^◌, ◌≤◌, ◌<◌, ◌≡◌, ◌≢◌, refl, sym, ap, ◌∙◌, inl, inr, true, false, ◌&&◌,
  List, [], ◌∷◌, ◌++◌, append-nil, append_assoc, none, some, Bytes, length, length-append, take,
  take_all, take-append_eq, length-take, ltb, lt→ltb, le→ltb, if◌then◌else◌, lookup, insert, nat_eq,
  Option-cases, lookup-insert_self, lookup-insert_ne, lookup-remove_self, arith,
}
use native.Mathlib.Decide.{dec_lt, ℕ_discrete}
use native.Mathlib.Nat.{mod-eq_of_lt}
use entrouter_line.Edge.{Channel, Edge, open_flow, close_flow, try_send, deliver, delivered_to}

-- Data for one flow, in turn.
unfoldable pub deliver_all : Edge → ℕ → List Bytes → Edge
deliver_all e flow_id [] = e
deliver_all e flow_id (payload ∷ payloads) =
    deliver_all (deliver e flow_id payload) flow_id payloads

-- The channel after data, the receiver being there: what fits, the oldest first.
abbrev pub filled : Channel → List Bytes → Channel
filled c payloads = record c { queue = take c.capacity (c.queue ++ payloads) }

try_send-filled :
    (c : Channel) (payload : Bytes)
    → c.connected ≡ true
    → length c.queue ≤ c.capacity
    → try_send payload c ≡ filled c (payload ∷ [])
unfolding try_send
try_send-filled c payload there fits = elim (dec_lt (length c.queue) c.capacity) [
  | yes room ↦
      let fills : (c.connected && ltb (length c.queue) c.capacity) ≡ true =
        rw (there, lt→ltb (length c.queue) c.capacity room) refl in
      ap (λ b. if b then record c { queue = c.queue ++ payload ∷ [] } else c) fills
      ∙ ap (λ l. record c { queue = l })
          (sym (
            take_all (c.queue ++ payload ∷ []) c.capacity
              (omega (arith, length-append c.queue (payload ∷ [])))))
  | no full ↦
      let drops : (c.connected && ltb (length c.queue) c.capacity) ≡ false =
        rw (there, le→ltb (length c.queue) c.capacity (omega arith)) refl in
      ap (λ b. if b then record c { queue = c.queue ++ payload ∷ [] } else c) drops
      ∙ ap (λ l. record c { queue = l })
          (sym (take-append_eq c.queue (payload ∷ []) c.capacity (omega arith)))
]

take-take_append : (n : ℕ) (xs ys : List Bytes) → take n (take n xs ++ ys) ≡ take n (xs ++ ys)
take-take_append zero xs ys = refl
take-take_append (suc n) [] ys = refl
take-take_append (suc n) (x ∷ xs) ys = ap (λ t. x ∷ t) (take-take_append n xs ys)

filled-filled : (c : Channel) (xs ys : List Bytes) → filled (filled c xs) ys ≡ filled c (xs ++ ys)
filled-filled c xs ys =
    ap (λ l. record c { queue = l })
      (take-take_append c.capacity (c.queue ++ xs) ys
        ∙ ap (take c.capacity) (append_assoc c.queue xs ys))

deliver-filled :
    (e : Edge) (flow_id : ℕ) (c : Channel) (payload : Bytes)
    → lookup flow_id e.active_flows ≡ some c
    → c.connected ≡ true
    → length c.queue ≤ c.capacity
    → deliver e flow_id payload
      ≡ record e { active_flows = insert flow_id (filled c (payload ∷ [])) e.active_flows }
unfolding deliver
deliver-filled e flow_id c payload known there fits =
    ap (λ o. record e { active_flows = delivered_to flow_id payload e.active_flows o }) known
    ∙ ap (λ d. record e { active_flows = insert flow_id d e.active_flows })
        (try_send-filled c payload there fits)

-- Data that is delivered to a flow whose client still reads waits in its order behind what waited
-- before, up to the capacity of the channel; what comes when it is full is dropped, and the bound is
-- kept. No other flow is touched.
pub deliver_all-filled :
    (e : Edge) (flow_id : ℕ) (c : Channel) (payloads : List Bytes)
    → lookup flow_id e.active_flows ≡ some c
    → c.connected ≡ true
    → length c.queue ≤ c.capacity
    → let e' = deliver_all e flow_id payloads in
      (lookup flow_id e'.active_flows ≡ some (filled c payloads))
      × (length (filled c payloads).queue ≤ c.capacity)
      × ((j : ℕ) → j ≢ flow_id → lookup j e'.active_flows ≡ lookup j e.active_flows)
unfolding deliver_all
deliver_all-filled e flow_id c [] known there fits =
    let size : length (take c.capacity (c.queue ++ [])) ≤ c.capacity =
      omega (arith, length-take c.capacity (c.queue ++ [])) in
    let same : take c.capacity (c.queue ++ []) ≡ c.queue =
      ap (take c.capacity) (append-nil c.queue) ∙ take_all c.queue c.capacity fits in
    (known ∙ ap (λ l. some (record c { queue = l })) (sym same), size, λ j ne. refl)
deliver_all-filled e flow_id c (payload ∷ payloads) known there fits =
    let c' = filled c (payload ∷ []) in
    let step = deliver-filled e flow_id c payload known there fits in
    let flows = insert flow_id c' e.active_flows in
    let e' : Edge = record e { active_flows = flows } in
    let (here, bound, others) =
      deliver_all-filled e' flow_id c' payloads (lookup-insert_self flow_id c' e.active_flows) there
        (omega (arith, length-take c.capacity (c.queue ++ payload ∷ []))) in
    (
      ap (λ x. lookup flow_id (deliver_all x flow_id payloads).active_flows) step
          ∙ here
          ∙ ap some (filled-filled c (payload ∷ []) payloads),
      omega (arith, length-take c.capacity (c.queue ++ payload ∷ payloads)),
      λ j ne.
          ap (λ x. lookup j (deliver_all x flow_id payloads).active_flows) step
          ∙ others j ne
          ∙ lookup-insert_ne flow_id j c' e.active_flows (λ q. ne (sym q)),
    )

-- Every active flow has an identifier that was given out.
abbrev pub IsIssued : ℕ → Edge → Type 0
IsIssued first e =
    (j : ℕ) (c : Channel) → lookup j e.active_flows ≡ some c → (first ≤ j) × (j < e.next_flow_id)

-- Until the counter wraps around, a new flow gets an identifier that no active flow has, with an
-- empty channel; the other flows are as before, and the identifiers stay among those given out. After
-- it is closed no flow has that identifier.
pub open_flow-IsIssued :
    (first capacity : ℕ) (e : Edge)
    → IsIssued first e
    → first ≤ e.next_flow_id
    → e.next_flow_id + 1 < 2 ^ 32
    → let (e', flow_id) = open_flow capacity e in
      (lookup flow_id e.active_flows ≡ none)
      × (lookup flow_id e'.active_flows
          ≡ some (record { capacity = capacity; queue = []; connected = true }))
      × ((j : ℕ) → j ≢ flow_id → lookup j e'.active_flows ≡ lookup j e.active_flows)
      × IsIssued first e'
      × (first ≤ e'.next_flow_id)
      × (lookup flow_id (close_flow e' flow_id).active_flows ≡ none)
unfolding open_flow close_flow
open_flow-IsIssued first capacity e issued low small =
    let id = e.next_flow_id in
    let fresh : Channel = record { capacity = capacity; queue = []; connected = true } in
    let next : (id + 1) % 2 ^ 32 ≡ id + 1 = mod-eq_of_lt {n = id + 1} {m = 2 ^ 32} small in
    (
      elim (Option-cases (lookup id e.active_flows)) [
        | inl free ↦ free
        | inr (c, taken) ↦ absurd (omega (arith, issued id c taken))
      ],
      lookup-insert_self id fresh e.active_flows,
      λ j ne. lookup-insert_ne id j fresh e.active_flows (λ q. ne (sym q)),
      λ j c found. elim (ℕ_discrete id j) [
        | yes same ↦ omega (arith, same, next)
        | no other ↦
            let old = issued j c (sym (lookup-insert_ne id j fresh e.active_flows other) ∙ found) in
            omega (arith, old, next)
      ],
      omega (arith, next),
      lookup-remove_self id (insert id fresh e.active_flows),
    )
