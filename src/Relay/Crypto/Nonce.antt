-- ===== src/Relay/Crypto/Nonce.antt =====
-- src/relay/crypto.rs: nonces, and what is decrypted after it was encrypted.
use entrouter_line.Base.{
  ℕ, ◌+◌, ◌^◌, ◌≤◌, ◌<◌, ◌≡◌, refl, sym, ap, ◌∙◌, some, ok, Bytes, from_le, from_le-to_le, length,
  take,
}
use entrouter_line.Relay.Crypto.{Aead, Seals, make_nonce, encrypt, decrypt}

-- A nonce has 12 bytes, and two sequence numbers of 64 bits with the same nonce are the same.
pub make_nonce-injective :
    (a b : ℕ)
    → a < 2 ^ 64
    → b < 2 ^ 64
    → (length (make_nonce a) ≡ 12) × (make_nonce a ≡ make_nonce b → a ≡ b)
unfolding make_nonce
make_nonce-injective a b ha hb =
    (refl, λ e. sym (from_le-to_le 8 a ha) ∙ ap (λ n. from_le (take 8 n)) e ∙ from_le-to_le 8 b hb)

-- Over a cipher that keeps its promise, what `encrypt` returns is 16 bytes longer than the payload,
-- and `decrypt` under the same key and sequence number gives the payload back.
pub decrypt-encrypt :
    (a : Aead) (key : Bytes) (seq : ℕ) (payload : Bytes)
    → Seals a
    → length payload ≤ 2 ^ 36
    → (c : Bytes) × (encrypt a key seq payload ≡ ok c)
      × (length c ≡ length payload + 16)
      × (decrypt a key seq c ≡ some payload)
unfolding encrypt decrypt
decrypt-encrypt a key seq payload s small =
    let n = make_nonce seq in
    (
      s.sealed key n payload,
      rw (s.seals key n payload small),
      s.sealed_length key n payload,
      s.opens key n payload,
    )
