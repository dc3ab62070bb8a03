-- ===== src/Edge/Reads.antt =====
-- src/edge/tcp_split.rs: what a TCP connection sends is relayed whole and in its order.
use entrouter_line.Base.{
  ℕ, ◌≤◌, ◌<◌, ◌≡◌, refl, sym, ap, ◌∙◌, Bool, true, false, List, [], ◌∷◌, ◌++◌, append_assoc,
  Option, none, some, Run, ok, panic, ◌>>=◌, Bytes, All, All-append, length, chunks, concat,
  concat-append, concat-chunks, is_some, if◌then◌else◌, arith,
}
use entrouter_line.Mesh.LatencyMatrix.{LatencyMatrix}
use entrouter_line.Mesh.Router.{RouteEntry}
use entrouter_line.Relay.Crypto.{Aead}
use entrouter_line.Relay.Fec.{ReedSolomon}
use entrouter_line.Relay.Tunnel.{Socket}
use entrouter_line.Relay.Forwarder.{Forwarder, Effect, ForwarderError, send_to_node}
use entrouter_line.Edge.{Read, bytes_read, read_error, max_relay_data, relay_pieces, tcp_reads}

-- The bytes up to the end of the stream or the first error.
unfoldable pub stream : List Read → Bytes
stream [] = []
stream (read_error ∷ reads) = []
stream (bytes_read [] ∷ reads) = []
stream (bytes_read (b ∷ bs) ∷ reads) = (b ∷ bs) ++ stream reads

-- The pieces of all reads.
unfoldable pub pieces_of : List Read → List Bytes
pieces_of [] = []
pieces_of (read_error ∷ reads) = []
pieces_of (bytes_read [] ∷ reads) = []
pieces_of (bytes_read (b ∷ bs) ∷ reads) = chunks max_relay_data (b ∷ bs) ++ pieces_of reads

abbrev pub IsPiece : Bytes → Type 0
IsPiece piece = (0 < length piece) × (length piece ≤ max_relay_data)

pieces_of-stream :
    (reads : List Read) → (concat (pieces_of reads) ≡ stream reads) × All IsPiece (pieces_of reads)
unfolding pieces_of stream
pieces_of-stream [] = (refl, tt)
pieces_of-stream (read_error ∷ reads) = (refl, tt)
pieces_of-stream (bytes_read [] ∷ reads) = (refl, tt)
pieces_of-stream (bytes_read (b ∷ bs) ∷ reads) =
    let (whole, small) = concat-chunks max_relay_data (b ∷ bs) (omega arith) in
    let (rest, smalls) = pieces_of-stream reads in
    (
      concat-append (chunks max_relay_data (b ∷ bs)) (pieces_of reads)
          ∙ ap (λ x. x ++ concat (pieces_of reads)) whole
          ∙ ap (λ x. b ∷ bs ++ x) rest,
      All-append IsPiece (chunks max_relay_data (b ∷ bs)) (pieces_of reads) small smalls,
    )

module _ (a : Aead) (socket : Socket) (rs : ReedSolomon)
    (route : LatencyMatrix → Bytes → Option RouteEntry) (dest_node : Bytes) (flow_id : ℕ) where
  -- Pieces in two parts: the second, if all of the first are taken.
  and_then :
      Run (Forwarder × List Effect × Bool) → List Bytes → Run (Forwarder × List Effect × Bool)
  and_then r pieces = r >>= λ r.
      let rest = relay_pieces a socket rs route r.0 dest_node flow_id pieces >>= λ q.
      ok (q.0, r.1 ++ q.1, q.2) in
      if r.2 then rest else ok (r.0, r.1, false)

  abbrev prefixed :
      List Effect → Run (Forwarder × List Effect × Bool) → Run (Forwarder × List Effect × Bool)
  prefixed e r = r >>= λ q. ok (q.0, e ++ q.1, q.2)

  prefix_nil : (r : Run (Forwarder × List Effect × Bool)) → r ≡ prefixed [] r
  prefix_nil (ok r) = refl
  prefix_nil panic = refl

  prefix_twice :
      (e e' : List Effect) (r : Run (Forwarder × List Effect × Bool))
      → prefixed e (prefixed e' r) ≡ prefixed (e ++ e') r
  prefix_twice e e' (ok (f, x, b)) = ap (λ l. ok (f, l, b)) (sym (append_assoc e e' x))
  prefix_twice e e' panic = refl

  and_then-prefix :
      (e : List Effect) (ys : List Bytes) (r : Run (Forwarder × List Effect × Bool))
      → prefixed e (and_then r ys) ≡ and_then (prefixed e r) ys
  unfolding and_then
  and_then-prefix e ys (ok (f, e', true)) =
      prefix_twice e e' (relay_pieces a socket rs route f dest_node flow_id ys)
  and_then-prefix e ys (ok (f, e', false)) = refl
  and_then-prefix e ys panic = refl

  first_piece :
      (xs ys : List Bytes)
      → ((f : Forwarder)
          → relay_pieces a socket rs route f dest_node flow_id (xs ++ ys)
            ≡ and_then (relay_pieces a socket rs route f dest_node flow_id xs) ys)
      → (r : Run (Forwarder × List Effect × Option ForwarderError))
      → (r >>= λ r.
          let rest = relay_pieces a socket rs route r.0 dest_node flow_id (xs ++ ys) >>= λ q.
          ok (q.0, r.1 ++ q.1, q.2) in
          if is_some r.2 then ok (r.0, r.1, false) else rest)
        ≡ and_then
            (r >>= λ r.
              let rest = relay_pieces a socket rs route r.0 dest_node flow_id xs >>= λ q.
              ok (q.0, r.1 ++ q.1, q.2) in
              if is_some r.2 then ok (r.0, r.1, false) else rest)
            ys
  unfolding and_then
  first_piece xs ys more (ok (f, e, some error)) = refl
  first_piece xs ys more (ok (f, e, none)) =
      ap (prefixed e) (more f)
      ∙ and_then-prefix e ys (relay_pieces a socket rs route f dest_node flow_id xs)
  first_piece xs ys more panic = refl

  relay_pieces-append :
      (f : Forwarder) (xs ys : List Bytes)
      → relay_pieces a socket rs route f dest_node flow_id (xs ++ ys)
        ≡ and_then (relay_pieces a socket rs route f dest_node flow_id xs) ys
  unfolding relay_pieces and_then
  relay_pieces-append f [] ys = prefix_nil (relay_pieces a socket rs route f dest_node flow_id ys)
  relay_pieces-append f (x ∷ xs) ys =
      first_piece xs ys (λ g. relay_pieces-append g xs ys)
        (send_to_node a socket rs route f dest_node flow_id x)

  abbrev without_flag : Run (Forwarder × List Effect × Bool) → Run (Forwarder × List Effect)
  without_flag r = r >>= λ q. ok (q.0, q.1)

  more_reads :
      (rest : Forwarder → Run (Forwarder × List Effect)) (ys : List Bytes)
      → ((f : Forwarder)
          → rest f ≡ without_flag (relay_pieces a socket rs route f dest_node flow_id ys))
      → (r : Run (Forwarder × List Effect × Bool))
      → (r >>= λ r.
          let more = rest r.0 >>= λ q. ok (q.0, r.1 ++ q.1) in if r.2 then more else ok (r.0, r.1))
        ≡ without_flag (and_then r ys)
  unfolding and_then
  more_reads rest ys same (ok (f, e, false)) = refl
  more_reads rest ys same (ok (f, e, true)) =
      ap (λ r. r >>= λ q. ok (q.0, e ++ q.1)) (same f)
      ∙ swap (relay_pieces a socket rs route f dest_node flow_id ys)
    where
      swap :
          (r : Run (Forwarder × List Effect × Bool))
          → (without_flag r >>= λ q. ok (q.0, e ++ q.1)) ≡ without_flag (prefixed e r)
      swap (ok r) = refl
      swap panic = refl
  more_reads rest ys same panic = refl

  tcp_reads-relay_pieces :
      (f : Forwarder) (reads : List Read)
      → tcp_reads a socket rs route f dest_node flow_id reads
        ≡ without_flag (relay_pieces a socket rs route f dest_node flow_id (pieces_of reads))
  unfolding tcp_reads pieces_of relay_pieces
  tcp_reads-relay_pieces f [] = refl
  tcp_reads-relay_pieces f (read_error ∷ reads) = refl
  tcp_reads-relay_pieces f (bytes_read [] ∷ reads) = refl
  tcp_reads-relay_pieces f (bytes_read (b ∷ bs) ∷ reads) =
      more_reads (λ g. tcp_reads a socket rs route g dest_node flow_id reads) (pieces_of reads)
        (λ g. tcp_reads-relay_pieces g reads)
        (relay_pieces a socket rs route f dest_node flow_id (chunks max_relay_data (b ∷ bs)))
      ∙ ap without_flag
          (sym (relay_pieces-append f (chunks max_relay_data (b ∷ bs)) (pieces_of reads)))

  -- The read task of a TCP connection does what relaying one list of pieces does, in whatever reads the
  -- bytes came: pieces of 1 to 1400 bytes that, put together, are the bytes that came before the end of
  -- the stream or the first error. It stops at the first piece that is refused.
  pub tcp_reads-stream :
      (f : Forwarder) (reads : List Read)
      → (pieces : List Bytes) × (tcp_reads a socket rs route f dest_node flow_id reads
          ≡ (relay_pieces a socket rs route f dest_node flow_id pieces >>= λ q. ok (q.0, q.1)))
        × (concat pieces ≡ stream reads)
        × All IsPiece pieces
  tcp_reads-stream f reads =
      let (whole, small) = pieces_of-stream reads in
      (pieces_of reads, tcp_reads-relay_pieces f reads, whole, small)
