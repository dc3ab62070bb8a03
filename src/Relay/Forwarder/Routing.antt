-- ===== src/Relay/Forwarder/Routing.antt =====
-- src/relay/forwarder.rs: what `route_data` does with data for this node and for another.
use entrouter_line.Base.{
  ℕ, ◌^◌, ◌≤◌, ◌<◌, ◌≡◌, ◌≢◌, refl, ◌∙◌, Bool, true, false, List, [], ◌∷◌, map, Option, some, ok,
  ◌>>=◌, Bytes, bytes_eq, bytes_eq_iff, All, length, take_all, if◌then◌else◌, arith,
}
use entrouter_line.Mesh.LatencyMatrix.{LatencyMatrix}
use entrouter_line.Mesh.Router.{RouteEntry}
use entrouter_line.Relay.Crypto.{Aead}
use entrouter_line.Relay.Fec.{ReedSolomon}
use entrouter_line.Relay.RelayHeader.{is_utf8, encode_relay_header, decode_relay_header}
use entrouter_line.Relay.RelayHeader.RoundTrip.{decode_relay_header-encode}
use entrouter_line.Relay.Tunnel.{Socket}
use entrouter_line.Relay.Forwarder.{Forwarder, Effect, delivered, forward_to, route_data, route_all}

-- A flow identifier and the data for it.
abbrev pub Message : Type 0
Message = ℕ × Bytes

abbrev pub relayed : Bytes → Message → Bytes
relayed node (flow_id, app_data) = encode_relay_header flow_id node app_data

abbrev pub delivery : Bytes → Message → Effect
delivery from_peer (flow_id, app_data) =
    delivered (record { flow_id = flow_id; app_data = app_data; source_node = from_peer })

-- A node name that the header holds whole.
pub record IsName (node : Bytes) : Type 0 where
  pub utf8 : is_utf8 node ≡ true
  pub short : length node ≤ 255

pub decode_relay_header-relayed :
    (node : Bytes) (flow_id : ℕ) (app_data : Bytes)
    → IsName node
    → flow_id < 2 ^ 32
    → decode_relay_header (encode_relay_header flow_id node app_data)
      ≡ some (flow_id, node, app_data)
decode_relay_header-relayed node flow_id app_data name small =
    decode_relay_header-encode flow_id node app_data small
    ∙ rw (take_all node 255 name.short, name.utf8) refl

bytes_eq_ne : (a b : Bytes) → a ≢ b → bytes_eq a b ≡ false
bytes_eq_ne a b ne = ground (arith, bytes_eq_iff a b)

module _ (a : Aead) (socket : Socket) (rs : ReedSolomon)
    (route : LatencyMatrix → Bytes → Option RouteEntry) where
  -- Relayed data for this node is delivered to the edge once, with its flow, and changes nothing
  -- else; if the channel is closed it is dropped. Data for another node is handed to `forward_to`
  -- byte for byte as it came, and an error there changes nothing here.
  pub route_data-relayed :
      (channel_open : Bool) (f : Forwarder) (from_peer dest : Bytes) (flow_id : ℕ)
      (app_data : Bytes)
      → IsName dest
      → flow_id < 2 ^ 32
      → let payload = encode_relay_header flow_id dest app_data in
        (dest ≡ f.node_id
          → route_data a socket rs route channel_open f from_peer payload
            ≡ ok (f, if channel_open then delivery from_peer (flow_id, app_data) ∷ [] else []))
        × (dest ≢ f.node_id
            → route_data a socket rs route channel_open f from_peer payload
              ≡ (forward_to a socket rs route f dest payload >>= λ r. ok (r.0, r.1)))
  unfolding route_data
  route_data-relayed channel_open f from_peer dest flow_id app_data name small =
      let e = decode_relay_header-relayed dest flow_id app_data name small in
      (
        λ here. rw (e, (bytes_eq_iff dest f.node_id).1 here) refl,
        λ away. rw (e, bytes_eq_ne dest f.node_id away) refl,
      )

  -- Messages for this node are delivered in their order.
  pub route_all-relayed :
      (f : Forwarder) (from_peer : Bytes) (messages : List Message)
      → IsName f.node_id
      → All (λ m. m.0 < 2 ^ 32) messages
      → route_all a socket rs route true f from_peer (map (relayed f.node_id) messages)
        ≡ ok (f, map (delivery from_peer) messages)
  unfolding route_all
  route_all-relayed f from_peer [] name small = refl
  route_all-relayed f from_peer ((flow_id, app_data) ∷ messages) name (small, smalls) =
      rw
        (
          (route_data-relayed true f from_peer f.node_id flow_id app_data name small).0 refl,
          route_all-relayed f from_peer messages name smalls,
        )
        refl
