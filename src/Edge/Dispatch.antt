-- ===== src/Edge/Dispatch.antt =====
-- src/main.rs: which edge a delivery goes to.
use entrouter_line.Base.{◌≤◌, ◌≡◌, refl, lt→ltb, le→ltb, arith, some, lookup, nat_eq}
use entrouter_line.Relay.Forwarder.{LocalDelivery}
use entrouter_line.Edge.{Edges, Channel, deliver, dispatch}
use entrouter_line.Edge.Queues.{IsIssued}

-- While both counters have not wrapped around, a delivery for an active QUIC flow goes to the QUIC
-- edge; one for an active TCP flow goes to the TCP edge if fewer than a million identifiers were given
-- out there, and from the millionth on to the QUIC edge.
pub dispatch-IsIssued :
    (es : Edges) (d : LocalDelivery) (c : Channel)
    → IsIssued 1 es.tcp
    → IsIssued 1_000_000 es.quic
    → (lookup d.flow_id es.quic.active_flows ≡ some c
        → dispatch es d ≡ record es { quic = deliver es.quic d.flow_id d.app_data })
      × (lookup d.flow_id es.tcp.active_flows ≡ some c
          → es.tcp.next_flow_id ≤ 1_000_000
          → dispatch es d ≡ record es { tcp = deliver es.tcp d.flow_id d.app_data })
      × (1_000_000 ≤ d.flow_id
          → dispatch es d ≡ record es { quic = deliver es.quic d.flow_id d.app_data })
unfolding dispatch
dispatch-IsIssued es d c tcp quic = (
  λ found. rw (le→ltb d.flow_id 1_000_000 (omega (arith, quic d.flow_id c found))) refl,
  λ found few. rw (lt→ltb d.flow_id 1_000_000 (omega (arith, tcp d.flow_id c found))) refl,
  λ high. rw (le→ltb d.flow_id 1_000_000 high) refl,
)
