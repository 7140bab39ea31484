-- ===== src/TxSet/Signature.antt =====
-- `moneroSignature`: a Schnorr signature of a hash, with the third-party curve as a parameter.
use xns.Common.{
  ℕ, zero, suc, ◌/◌, ◌%◌, Bool, List, [], ◌∷◌, ◌++◌, Bytes, Result, ok, stuck, ◌>>=◌, ◌>>◌, check,
  length, ◌==◌, if◌then◌else◌, hash_size, scalar_size,
}
use xns.Edwards.{from_le, ed_l}

-- The hash functions of golang.org/x/crypto and the Monero library, and the scalars and the base
-- point of filippo.io/edwards25519.
pub record Crypto : Type 1 where
  pub Scalar : Type 0
  pub keccak : Bytes → Bytes
  pub cryptonight : Bytes → Bytes
  pub set_canonical : Bytes → Result Scalar
  pub set_uniform : Bytes → Result Scalar
  pub bytes : Scalar → Bytes
  pub is_zero : Scalar → Bool
  pub multiply : Scalar → Scalar → Scalar
  pub subtract : Scalar → Scalar → Scalar
  pub scalar_base_mult : Scalar → Bytes

-- A number in `n` bytes, the low one first.
abbrev pub to_le : ℕ → ℕ → Bytes
to_le zero x = []
to_le (suc n) x = x % 256 ∷ to_le n (x / 256)

-- A number below the order has at most 32 bytes, so there is no overflow.
unfoldable pub scalar_from_le : (c : Crypto) → Bytes → Result c.Scalar
scalar_from_le c raw = do
  check (length raw == 32) scalar_size
  c.set_canonical (to_le 32 (from_le raw % ed_l))

unfoldable pub scalar_from_hash : (c : Crypto) → Bytes → Result c.Scalar
scalar_from_hash c parts = scalar_from_le c (c.keccak parts)

-- The loop over the answers of `rand.Read`, until no scalar is zero; `stuck` when the answers end.
unfoldable pub sign_loop : (c : Crypto) → List (Result Bytes) → Bytes → c.Scalar → Result Bytes
sign_loop c [] hash a = stuck
sign_loop c (draw ∷ draws) hash a = do
  let again = sign_loop c draws hash a
  kb ← draw
  k ← c.set_uniform kb
  if c.is_zero k then again else do
    e ← scalar_from_hash c (hash ++ c.scalar_base_mult a ++ c.scalar_base_mult k)
    let r = c.subtract k (c.multiply e a)
    if c.is_zero e then again else if c.is_zero r then again else ok (c.bytes e ++ c.bytes r)

unfoldable pub monero_signature : (c : Crypto) → List (Result Bytes) → Bytes → Bytes → Result Bytes
monero_signature c draws hash secret = do
  check (length hash == 32) hash_size
  a ← scalar_from_le c secret
  sign_loop c draws hash a
