-- ===== src/Config/Validity.antt =====
-- src/config.rs: which configurations are loaded.
use entrouter_line.Base.{
  ℕ, ◌<◌, ◌≡◌, ◌≢◌, refl, sym, ◌∙◌, inl, inr, ◌↔◌, false, List, [], ◌∷◌, Option, none, some, Bytes,
  length, ◌==◌, ==_iff, All, is_some, Bool-cases, arith,
}
use entrouter_line.Config.{
  Config, validation, wrong_key_length, empty_node_id, no_peers, PeerConfig, ListenConfig, Result,
  check_tls, decode_key, check_peers, after_key, key_of, validate, key_size,
}

-- Certificate and key are both there or both not.
abbrev pub IsTls : ListenConfig → Type 0
IsTls l = is_some l.tls_cert_path ≡ is_some l.tls_key_path

inl≢inr : {A B : Type 0} {x : A} {y : B} → inl x ≢ inr y
inl≢inr e = cc

not_zero : (n : ℕ) → n == 0 ≡ false → 0 < n
not_zero n h = ground arith

module _ (base64_decode : Bytes → Option Bytes) where
  -- The shared key of a peer decodes to 32 bytes.
  abbrev pub HasKey : PeerConfig → Type 0
  HasKey p = (key : Bytes) × (decode_key base64_decode p ≡ inr key) × (length key ≡ key_size)

  pub record IsValid (c : Config) : Type 0 where
    pub named : 0 < length c.node_id
    pub some_peer : 0 < length c.peers
    pub keys : All HasKey c.peers
    pub tls : IsTls c.listen

  pub decode_key-length :
      (p : PeerConfig) (key : Bytes)
      → base64_decode p.shared_key ≡ some key
      → length key ≡ key_size
      → decode_key base64_decode p ≡ inr key
  unfolding decode_key key_of
  decode_key-length p key decoded size =
      rw (decoded, decode_key, (==_iff (length key) key_size).1 size) refl

  check_tls-IsTls : (l : ListenConfig) → (check_tls l ≡ inr tt) ↔ IsTls l
  unfolding check_tls
  check_tls-IsTls l = ground arith

  after_key-HasKey :
      (node_id : Bytes) (o : Option Bytes) (rest : Result (Unit {0}))
      → (after_key base64_decode node_id o rest ≡ inr tt) ↔ (
          ((key : Bytes) × (key_of base64_decode node_id o ≡ inr key) × (length key ≡ key_size))
          × (rest ≡ inr tt))
  unfolding after_key key_of
  after_key-HasKey node_id none rest = (λ e. absurd (cc), λ p. absurd (inl≢inr p.0.1))
  after_key-HasKey node_id (some key) rest = elim (Bool-cases (length key == key_size)) [
    | inl good ↦
        let same : after_key base64_decode node_id (some key) rest ≡ rest = rw good refl in
        (
          λ e. ((key, rw good refl, (==_iff (length key) key_size).0 good), sym same ∙ e),
          λ p. same ∙ p.1,
        )
    | inr bad ↦
        let refused : after_key base64_decode node_id (some key) rest
            ≡ inl (validation (wrong_key_length node_id (length key))) =
          rw bad refl in
        let no_key : key_of base64_decode node_id (some key)
            ≡ inl (validation (wrong_key_length node_id (length key))) =
          rw bad refl in
        (λ e. absurd (inl≢inr (sym refused ∙ e)), λ p. absurd (inl≢inr (sym no_key ∙ p.0.1)))
  ]

  check_peers-HasKey :
      (peers : List PeerConfig) (rest : Result (Unit {0}))
      → (check_peers base64_decode peers rest ≡ inr tt) ↔ (All HasKey peers × (rest ≡ inr tt))
  unfolding check_peers decode_key
  check_peers-HasKey [] rest = (λ e. (tt, e), λ p. p.1)
  check_peers-HasKey (p ∷ peers) rest =
      let (there, back) =
        after_key-HasKey p.node_id (base64_decode p.shared_key)
          (check_peers base64_decode peers rest) in
      let (there', back') = check_peers-HasKey peers rest in
      (
        λ e. let (key, more) = there e in let (keys, last) = there' more in ((key, keys), last),
        λ q. back (q.0.0, back' (q.0.1, q.1)),
      )

  -- `validate` accepts exactly the configurations that name their node, have a peer, give every peer
  -- a key of 32 bytes (so that `decode_key` returns one for each), and set both or none of the TLS
  -- paths.
  pub validate-IsValid : (c : Config) → (validate base64_decode c ≡ inr tt) ↔ IsValid c
  unfolding validate
  validate-IsValid c =
      let (peers_there, peers_back) = check_peers-HasKey c.peers (check_tls c.listen) in
      let (tls_there, tls_back) = check_tls-IsTls c.listen in
      elim (Bool-cases (length c.node_id == 0)) [
        | inl unnamed ↦
            let refused : validate base64_decode c ≡ inl (validation empty_node_id) =
              rw unnamed refl in
            (
              λ e. absurd (inl≢inr (sym refused ∙ e)),
              λ v. absurd (omega (arith, v.named, (==_iff (length c.node_id) 0).0 unnamed)),
            )
        | inr named ↦ elim (Bool-cases (length c.peers == 0)) [
          | inl alone ↦
              let refused : validate base64_decode c ≡ inl (validation no_peers) =
                rw (named, alone) refl in
              (
                λ e. absurd (inl≢inr (sym refused ∙ e)),
                λ v. absurd (omega (arith, v.some_peer, (==_iff (length c.peers) 0).0 alone)),
              )
          | inr peers ↦
              let same : validate base64_decode c
                  ≡ check_peers base64_decode c.peers (check_tls c.listen) =
                rw (named, peers) refl in
              (
                λ e.
                    let (keys, tls) = peers_there (sym same ∙ e) in
                    record {
                      named = not_zero (length c.node_id) named;
                      some_peer = not_zero (length c.peers) peers;
                      keys = keys;
                      tls = tls_there tls;
                    },
                λ v. same ∙ peers_back (v.keys, tls_back v.tls),
              )
        ]
      ]
