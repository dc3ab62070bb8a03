-- ===== src/Relay/Crypto.antt =====
-- src/relay/crypto.rs: nonces from sequence numbers, around an AEAD cipher that is not in the source.
pub mod Nonce
pub mod Toy
mod Tests
use entrouter_line.Base.{
  ℕ, ◌+◌, ◌*◌, ◌^◌, ◌≤◌, ◌≡◌, Option, none, some, Run, ok, panic, expect, ◌++◌, Bytes, to_le,
  length, replicate,
}

abbrev pub key_size : ℕ
key_size = 32

-- The crate `chacha20poly1305`: key, nonce, and text. `none` is its error.
pub record Aead : Type 0 where
  pub seal : Bytes → Bytes → Bytes → Option Bytes
  pub unseal : Bytes → Bytes → Bytes → Option Bytes

-- What the crate promises: a text below its limit is sealed, into a text that is 16 bytes longer,
-- and the same key and nonce open it.
pub record Seals (a : Aead) : Type 0 where
  pub sealed : Bytes → Bytes → Bytes → Bytes
  pub seals :
      (key nonce text : Bytes)
      → length text ≤ 2 ^ 36
      → a.seal key nonce text ≡ some (sealed key nonce text)
  pub sealed_length : (key nonce text : Bytes) → length (sealed key nonce text) ≡ length text + 16
  pub opens : (key nonce text : Bytes) → a.unseal key nonce (sealed key nonce text) ≡ some text

unfoldable pub make_nonce : ℕ → Bytes
make_nonce seq = to_le 8 seq ++ replicate 4 0

-- A `TunnelCrypto` is its key.
module _ (a : Aead) (key : Bytes) where
  unfoldable pub encrypt : ℕ → Bytes → Run Bytes
  encrypt seq payload = expect (a.seal key (make_nonce seq) payload)

  -- `none` is `CryptoError::DecryptionFailed`.
  unfoldable pub decrypt : ℕ → Bytes → Option Bytes
  decrypt seq ciphertext = a.unseal key (make_nonce seq) ciphertext
