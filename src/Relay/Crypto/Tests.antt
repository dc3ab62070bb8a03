-- ===== src/Relay/Crypto/Tests.antt =====
-- The theorems on src/relay/crypto.rs at inputs.
use entrouter_line.Base.{ℕ, ◌≡◌, length, arith}
use entrouter_line.Relay.Crypto.{make_nonce}
use entrouter_line.Relay.Crypto.Nonce.{make_nonce-injective}

make_nonce-injective_example :
    (length (make_nonce 7) ≡ 12) × (make_nonce 7 ≡ make_nonce 8 → ◌≡◌ {A = ℕ} 7 8)
make_nonce-injective_example = make_nonce-injective 7 8 (omega arith) (omega arith)
