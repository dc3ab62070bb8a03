-- ===== src/Edge/Connections.antt =====
-- src/edge: connections and streams that come and go, data that comes for them, and what the clients
-- read, in any order.
use entrouter_line.Base.{
  ℕ, suc, ◌+◌, ◌^◌, ◌≤◌, ◌<◌, ◌≡◌, refl, sym, ◌∙◌, inl, inr, Bool, true, false, not, ◌&&◌, [], ◌∷◌,
  some, none≢some, Bytes, length, length-append, ltb, lookup, insert, remove, nat_eq, ltb→lt,
  Bool-cases, Option-cases, lookup-insert_ne, lookup-remove_self, lookup-remove_ne, EachValue,
  EachValue-insert, EachValue-lookup, EachValue-remove, arith,
}
use mathlib.Core.Path.{subst}
use native.Mathlib.Decide.{ℕ_discrete}
use entrouter_line.Edge.{
  Channel, Edge, Accept, accepted, accept_error, accept, open_flow, close_flow, try_send, deliver,
  take_response,
}
use entrouter_line.Edge.Queues.{IsIssued, open_flow-IsIssued}

-- The channels of an edge have one capacity, and hold no more.
unfoldable pub IsChannel : ℕ → Channel → Type 0
IsChannel capacity c = (c.capacity ≡ capacity) × (length c.queue ≤ capacity)

try_send-IsChannel :
    (capacity : ℕ) (payload : Bytes) (c : Channel)
    → IsChannel capacity c
    → IsChannel capacity (try_send payload c)
unfolding try_send IsChannel
try_send-IsChannel capacity payload c (same, fits) =
    let size = length-append c.queue (payload ∷ []) in
    elim (Bool-cases c.connected) [
      | inl there ↦ elim (Bool-cases (ltb (length c.queue) c.capacity)) [
        | inl room ↦
            let less = ltb→lt (length c.queue) c.capacity room in
            rw (there, room) (same, omega (arith, less, size, same))
        | inr full ↦ rw (there, full) (same, fits)
      ]
      | inr gone ↦ rw gone (same, fits)
    ]

take_response-IsChannel :
    (capacity : ℕ) (c : Channel) → IsChannel capacity c → IsChannel capacity (take_response c).0
unfolding take_response IsChannel
take_response-IsChannel capacity c h = ground arith

-- An edge after `n` connections at most.
pub record IsEdge (first capacity n : ℕ) (e : Edge) : Type 0 where
  pub low : first ≤ e.next_flow_id
  pub high : e.next_flow_id ≤ first + n
  pub issued : IsIssued first e
  pub bounded : EachValue (IsChannel capacity) e.active_flows

-- A channel that is there is changed.
changed-IsEdge :
    (first capacity n : ℕ) (e : Edge) (flow_id : ℕ) (c c' : Channel)
    → lookup flow_id e.active_flows ≡ some c
    → IsChannel capacity c'
    → IsEdge first capacity n e
    → IsEdge first capacity n (record e { active_flows = insert flow_id c' e.active_flows })
changed-IsEdge first capacity n e flow_id c c' there fits h = record {
  low = h.low;
  high = h.high;
  issued = λ j d found. elim (ℕ_discrete flow_id j) [
    | yes same ↦ subst (λ k. (first ≤ k) × (k < e.next_flow_id)) same (h.issued flow_id c there)
    | no other ↦ h.issued j d (sym (lookup-insert_ne flow_id j c' e.active_flows other) ∙ found)
  ];
  bounded = EachValue-insert (IsChannel capacity) flow_id c' e.active_flows fits h.bounded;
}

deliver-IsEdge :
    (first capacity n : ℕ) (e : Edge) (flow_id : ℕ) (payload : Bytes)
    → IsEdge first capacity n e
    → IsEdge first capacity n (deliver e flow_id payload)
unfolding deliver
deliver-IsEdge first capacity n e flow_id payload h =
    elim (Option-cases (lookup flow_id e.active_flows)) [
      | inl unknown ↦ rw (unknown, deliver) h
      | inr (c, there) ↦
          let fits =
            EachValue-lookup (IsChannel capacity) flow_id c e.active_flows there h.bounded in
          rw (there, deliver)
            (changed-IsEdge first capacity n e flow_id c (try_send payload c) there
              (try_send-IsChannel capacity payload c fits) h)
    ]

close_flow-IsEdge :
    (first capacity n : ℕ) (e : Edge) (flow_id : ℕ)
    → IsEdge first capacity n e
    → IsEdge first capacity n (close_flow e flow_id)
unfolding close_flow
close_flow-IsEdge first capacity n e flow_id h = record {
  low = h.low;
  high = h.high;
  issued = λ j c found. elim (ℕ_discrete flow_id j) [
    | yes same ↦
        let gone = lookup-remove_self flow_id e.active_flows in
        absurd (
          none≢some (
            sym gone
            ∙ subst (λ k. lookup k (remove flow_id e.active_flows) ≡ some c) (sym same) found))
    | no other ↦ h.issued j c (sym (lookup-remove_ne flow_id j e.active_flows other) ∙ found)
  ];
  bounded = EachValue-remove (IsChannel capacity) flow_id e.active_flows h.bounded;
}

open_flow-IsEdge :
    (first capacity n : ℕ) (e : Edge)
    → first + suc n < 2 ^ 32
    → IsEdge first capacity n e
    → IsEdge first capacity (suc n) (open_flow capacity e).0
unfolding IsChannel open_flow
open_flow-IsEdge first capacity n e small h =
    let (free, fresh, others, issued, low, closed) =
      open_flow-IsIssued first capacity e h.issued h.low (omega (arith, h.high)) in
    record {
      low = low;
      high = omega (arith, h.high);
      issued = issued;
      bounded =
          EachValue-insert (IsChannel capacity) e.next_flow_id
            (record { capacity = capacity; queue = []; connected = true }) e.active_flows
            (refl, omega arith) h.bounded;
    }

more-IsEdge :
    (first capacity n : ℕ) (e : Edge) → IsEdge first capacity n e → IsEdge first capacity (suc n) e
more-IsEdge first capacity n e h = record {
  low = h.low;
  high = omega (arith, h.high);
  issued = h.issued;
  bounded = h.bounded;
}

accept-IsEdge :
    (tls : Bool) (first capacity n : ℕ) (e : Edge) (x : Accept)
    → first + suc n < 2 ^ 32
    → IsEdge first capacity n e
    → IsEdge first capacity (suc n) (accept tls capacity e x).0
unfolding accept
accept-IsEdge tls first capacity n e accept_error small h = more-IsEdge first capacity n e h
accept-IsEdge tls first capacity n e (accepted handshake) small h =
    elim (Bool-cases (tls && not handshake)) [
      | inl refused ↦ rw refused (more-IsEdge first capacity n e h)
      | inr handled ↦ rw handled (open_flow-IsEdge first capacity n e small h)
    ]

module _ (tls : Bool) (first capacity : ℕ) (dest_node : Bytes) where
  -- The states of an edge after `n` times that a connection or a stream was accepted or refused.
  pub data Reach : ℕ → Edge → Type 0 where
    here : Reach 0 (record { dest_node = dest_node; active_flows = []; next_flow_id = first })
    accepts :
        (n : ℕ) (e : Edge) (x : Accept) → Reach n e → Reach (suc n) (accept tls capacity e x).0
    delivers :
        (n : ℕ) (e : Edge) (flow_id : ℕ) (payload : Bytes)
        → Reach n e
        → Reach n (deliver e flow_id payload)
    responds :
        (n : ℕ) (e : Edge) (flow_id : ℕ) (c : Channel)
        → lookup flow_id e.active_flows ≡ some c
        → Reach n e
        → Reach n (record e { active_flows = insert flow_id (take_response c).0 e.active_flows })
    disconnects :
        (n : ℕ) (e : Edge) (flow_id : ℕ) (c : Channel)
        → lookup flow_id e.active_flows ≡ some c
        → Reach n e
        → Reach n (record e {
          active_flows = insert flow_id (record c { connected = false }) e.active_flows;
        })
    closes : (n : ℕ) (e : Edge) (flow_id : ℕ) → Reach n e → Reach n (close_flow e flow_id)

  -- Until its counter wraps around, in every state that an edge reaches: no channel holds more than its
  -- capacity, and every active flow has an identifier that was given out, of which there are no more
  -- than connections.
  pub Reach-IsEdge : (n : ℕ) (e : Edge) → first + n < 2 ^ 32 → Reach n e → IsEdge first capacity n e
  unfolding IsChannel
  Reach-IsEdge _ _ small here = record {
    low = omega arith;
    high = omega arith;
    issued = λ j c found. absurd (none≢some found);
    bounded = tt;
  }
  Reach-IsEdge _ _ small (accepts n e x r) =
      accept-IsEdge tls first capacity n e x small (Reach-IsEdge n e (omega (arith, small)) r)
  Reach-IsEdge _ _ small (delivers n e flow_id payload r) =
      deliver-IsEdge first capacity n e flow_id payload (Reach-IsEdge n e small r)
  Reach-IsEdge _ _ small (responds n e flow_id c there r) =
      let h = Reach-IsEdge n e small r in
      let fits = EachValue-lookup (IsChannel capacity) flow_id c e.active_flows there h.bounded in
      changed-IsEdge first capacity n e flow_id c (take_response c).0 there
        (take_response-IsChannel capacity c fits) h
  Reach-IsEdge _ _ small (disconnects n e flow_id c there r) =
      let h = Reach-IsEdge n e small r in
      let fits = EachValue-lookup (IsChannel capacity) flow_id c e.active_flows there h.bounded in
      changed-IsEdge first capacity n e flow_id c (record c { connected = false }) there fits h
  Reach-IsEdge _ _ small (closes n e flow_id r) =
      close_flow-IsEdge first capacity n e flow_id (Reach-IsEdge n e small r)
