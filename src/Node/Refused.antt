-- ===== src/Node/Refused.antt =====
-- src/main.rs: what must hold for a node to start.
use entrouter_line.Base.{
  ◌≡◌, refl, ◌⊎◌, inl, inr, Bool, true, false, Option, none, some, Bytes, if◌then◌else◌,
}
use mathlib.Core.Path.{subst}
use entrouter_line.Config.{Config, ListenConfig, Result, validate, load, parsed, validated}
use entrouter_line.Config.Validity.{IsValid, validate-IsValid}
use entrouter_line.Node.{
  new_boot, add_peers, start, Node, StartError, Listener, relay_socket, tcp_listener, quic_endpoint,
  admin_listener, bound, map_error, config_error, not_bound, ◌>>=◌,
}

-- What holds of a result that is no error.
data OnRight {E A : Type 0} (P : A → Type 0) : E ⊎ A → Type 0 where
  on_right : {a : A} → P a → OnRight P (inr a)
  on_left : {e : E} → OnRight P (inl e)

OnRight-eq : {E A : Type 0} (r : E ⊎ A) → OnRight (λ a. r ≡ inr a) r
OnRight-eq (inl e) = on_left
OnRight-eq (inr a) = on_right refl

OnRight-bind :
    {E A B : Type 0} {P : A → Type 0} {Q : B → Type 0} {r : E ⊎ A} {f : A → E ⊎ B}
    → OnRight P r
    → ((a : A) → P a → OnRight Q (f a))
    → OnRight Q (r >>= f)
OnRight-bind (on_right p) k = k _ p
OnRight-bind on_left k = on_left

OnRight-map_error :
    {E F A : Type 0} {P : A → Type 0} (g : E → F) {r : E ⊎ A}
    → OnRight P r
    → OnRight P (map_error g r)
OnRight-map_error g (on_right p) = on_right p
OnRight-map_error g on_left = on_left

OnRight-inr : {E A : Type 0} {P : A → Type 0} {r : E ⊎ A} {a : A} → OnRight P r → r ≡ inr a → P a
OnRight-inr {P} (on_right p) e = subst P (cc) p
OnRight-inr on_left e = absurd (cc)

bound-true :
    (binds : Listener → Bool) (l : Listener) → OnRight (λ _. binds l ≡ true) (bound binds l)
bound-true binds l = decided (binds l)
  where
    decided : (b : Bool) → OnRight (λ _. b ≡ true) (if b then inr tt else inl (not_bound l))
    decided true = on_right refl
    decided false = on_left

module _ (base64_decode : Bytes → Option Bytes) where
  validated-IsValid :
      (c : Config) (r : Result (Unit {0}))
      → validate base64_decode c ≡ r
      → OnRight (IsValid base64_decode) (validated base64_decode c r)
  unfolding validated
  validated-IsValid c (inl e) valid = on_left
  validated-IsValid c (inr u) valid = on_right ((validate-IsValid base64_decode c).0 valid)

  parsed-IsValid : (o : Option Config) → OnRight (IsValid base64_decode) (parsed base64_decode o)
  unfolding parsed
  parsed-IsValid none = on_left
  parsed-IsValid (some c) = validated-IsValid c (validate base64_decode c) refl

  load-IsValid :
      (from_toml : Bytes → Option Config) (content : Option Bytes)
      → OnRight (IsValid base64_decode) (load base64_decode from_toml content)
  unfolding load
  load-IsValid from_toml none = on_left
  load-IsValid from_toml (some content) = parsed-IsValid (from_toml content)

  -- What a node that has started rests on.
  unfoldable pub Started :
      {Tls : Type 0}
      → (Listener → Bool)
      → (ListenConfig → StartError ⊎ Option Tls)
      → Node Tls
      → Type 0
  Started binds tls n =
      IsValid base64_decode n.config
      × (binds relay_socket ≡ true)
      × (binds tcp_listener ≡ true)
      × (binds quic_endpoint ≡ true)
      × (binds admin_listener ≡ true)
      × (tls n.config.listen ≡ inr n.tls_acceptor)
      × (add_peers base64_decode (new_boot n.config) n.config.peers ≡ inr n.boot)

  started :
      {Tls : Type 0} (from_toml : Bytes → Option Config)
      (tls : ListenConfig → StartError ⊎ Option Tls) (binds : Listener → Bool)
      (content : Option Bytes)
      → OnRight (Started binds tls) (start base64_decode from_toml tls binds content)
  unfolding start Started
  started from_toml tls binds content =
      OnRight-bind (OnRight-map_error config_error (load-IsValid from_toml content)) λ c valid.
        OnRight-bind (bound-true binds relay_socket) λ _ relay.
          OnRight-bind
            (OnRight-map_error config_error
              (OnRight-eq (add_peers base64_decode (new_boot c) c.peers)))
            λ b added. OnRight-bind (bound-true binds tcp_listener) λ _ tcp.
              OnRight-bind (OnRight-eq (tls c.listen)) λ acceptor secured.
                OnRight-bind (bound-true binds quic_endpoint) λ _ quic.
                  OnRight-bind (bound-true binds admin_listener)
                    λ _ admin. on_right (valid, relay, tcp, quic, admin, secured, added)

  -- `start` ends with a node only if the configuration is valid, all four sockets are bound, and TLS
  -- has loaded; the node has what the loop over the peers has made.
  pub start-Started :
      {Tls : Type 0} (from_toml : Bytes → Option Config)
      (tls : ListenConfig → StartError ⊎ Option Tls) (binds : Listener → Bool)
      (content : Option Bytes) (n : Node Tls)
      → start base64_decode from_toml tls binds content ≡ inr n
      → Started binds tls n
  start-Started from_toml tls binds content n = OnRight-inr (started from_toml tls binds content)
