-- ===== src/Relay/Crypto/Toy.antt =====
-- A cipher that keeps the promise of `Seals`, for the examples: the tag is the start of the nonce
-- and the key, and is checked.
use entrouter_line.Base.{
  ◌+◌, ◌≡◌, refl, Option, none, some, ◌++◌, Bytes, length, length-append, length-take, replicate,
  take, drop, take-append_eq, drop-append_eq, arith, bytes_eq, bytes_eq_iff, if◌then◌else◌,
}
use entrouter_line.Relay.Crypto.{Aead, Seals}

abbrev tag : Bytes → Bytes → Bytes
tag key nonce = take 16 (nonce ++ key ++ replicate 16 0)

length-tag : (key nonce : Bytes) → length (tag key nonce) ≡ 16
length-tag key nonce = omega (
  arith,
  length-take 16 (nonce ++ key ++ replicate 16 0),
  length-append (nonce ++ key) (replicate 16 0),
)

unfoldable pub toy_seal : Bytes → Bytes → Bytes → Bytes
toy_seal key nonce text = tag key nonce ++ text

unfoldable pub toy_unseal : Bytes → Bytes → Bytes → Option Bytes
toy_unseal key nonce c = if bytes_eq (take 16 c) (tag key nonce) then some (drop 16 c) else none

toy_opens : (key nonce text : Bytes) → toy_unseal key nonce (toy_seal key nonce text) ≡ some text
unfolding toy_unseal toy_seal
toy_opens key nonce text =
    let t = tag key nonce in
    rw (
      take-append_eq t text 16 (length-tag key nonce),
      drop-append_eq t text 16 (length-tag key nonce),
      (bytes_eq_iff t t).1 refl,
    )

length-toy_seal : (key nonce text : Bytes) → length (toy_seal key nonce text) ≡ length text + 16
unfolding toy_seal
length-toy_seal key nonce text =
    omega (arith, length-append (tag key nonce) text, length-tag key nonce)

abbrev pub toy : Aead
toy = record { seal = λ key nonce text. some (toy_seal key nonce text); unseal = toy_unseal }

pub toy-Seals : Seals toy
toy-Seals = record {
  sealed = toy_seal;
  seals = λ key nonce text _. refl;
  sealed_length = length-toy_seal;
  opens = toy_opens;
}
