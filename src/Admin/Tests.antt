-- ===== src/Admin/Tests.antt =====
-- Runs of src/admin.rs, and its theorem at an input.
use entrouter_line.Base.{◌≡◌, refl, [], ◌∷◌, ◌++◌, some, Bytes}
use entrouter_line.Mesh.Probe
use entrouter_line.Relay.Forwarder
use entrouter_line.Edge.{tcp_splitter, quic_acceptor}
use entrouter_line.Admin.{
  AdminState, ok_text, unauthorized, status, bearer, authorized, health_route, status_route,
  handle_request,
}
use entrouter_line.Admin.Access.{Presents, handle_request-Presents}

abbrev name : Bytes
name = 115 ∷ []

abbrev state : AdminState
state = record {
  node_id = name;
  region = name;
  forwarder =
      Forwarder.new name (Probe.new name []) (record { data_shards = 10; parity_shards = 4 });
  tcp_splitter = tcp_splitter name;
  quic_acceptor = quic_acceptor name;
  admin_token = some (1 ∷ 2 ∷ []);
}

wrong_token : handle_request state status_route (some (bearer ++ 1 ∷ 3 ∷ [])) ≡ unauthorized
unfolding handle_request authorized
wrong_token = refl

handle_request-Presents_example :
    (Presents (some (1 ∷ 2 ∷ [])) (some (bearer ++ 1 ∷ 2 ∷ []))
      → handle_request state status_route (some (bearer ++ 1 ∷ 2 ∷ [])) ≡ status state)
    × ((Presents (some (1 ∷ 2 ∷ [])) (some (bearer ++ 1 ∷ 2 ∷ [])) → ⊥)
        → handle_request state status_route (some (bearer ++ 1 ∷ 2 ∷ [])) ≡ unauthorized)
    × (handle_request state health_route (some (bearer ++ 1 ∷ 2 ∷ [])) ≡ ok_text)
handle_request-Presents_example = handle_request-Presents state (some (bearer ++ 1 ∷ 2 ∷ []))
