-- ===== src/TxSet/Opening.antt =====
-- `decryptUnsignedTxSet` opens what `encryptUnsignedTxSet` sealed.
use xns.Common.{
  ℕ, ◌+◌, ◌-◌, ◌≡◌, refl, sym, ap, subst, ◌∙◌, Bool-cases, inl, inr, List, [], ◌∷◌, ◌++◌, Bytes,
  Result, ok, err, panic, stuck, ok-injective, >>=-eq-ok, check→true, check, true, false, length,
  drop, take, length-append, take-append_length, drop-append_length, arith, leb, ◌==◌, ◌&&◌, ==_iff,
  ltb,
}
use mathlib.Core.List.{append-nil, append_assoc}
use xns.Hex
use xns.TxSet.{TxSetPatch, patch_plaintext, starts_with, slice}
use xns.TxSet.Cipher.{chacha20_xor}
use xns.TxSet.Signature.{Crypto, scalar_from_le, scalar_from_hash, sign_loop, monero_signature}
use xns.TxSet.Seal.{
  wrap_secret, decode_secret, patch_unsigned_hex, decrypt, encrypt, unsigned_tx_prefix,
  chacha_iv_size,
}
use xns.TxSet.Involution.{chacha20_xor_twice}

starts_with-append : (xs ys : Bytes) → starts_with xs (xs ++ ys) ≡ true
unfolding starts_with
starts_with-append [] ys = refl
starts_with-append (x ∷ xs) ys = ground (arith, starts_with-append xs ys)

-- A piece of a list in three parts.
pub slice-middle :
    (a b c : Bytes) (m n : ℕ)
    → length a ≡ m
    → length a + length b ≡ n
    → slice (a ++ (b ++ c)) m n ≡ ok b
unfolding slice
slice-middle a b c m n h k =
    let behind : drop m (a ++ (b ++ c)) ≡ b ++ c =
      subst (λ l. drop l (a ++ (b ++ c)) ≡ b ++ c) h (drop-append_length a (b ++ c)) in
    let piece : take (n - m) (b ++ c) ≡ b =
      subst (λ l. take l (b ++ c) ≡ b) (omega arith) (take-append_length b c) in
    let inside : (leb m n && leb n (length (a ++ (b ++ c)))) ≡ true =
      ground (arith, length-append a (b ++ c), length-append b c) in
    rw (inside, behind, piece)

-- The parts of a sealed set are found.
opens :
    (c : Crypto) (secret nonce out plain sig : Bytes)
    → length nonce ≡ 8
    → length sig ≡ 64
    → chacha20_xor out (c.cryptonight secret) nonce ≡ ok plain
    → decrypt c (unsigned_tx_prefix ++ ((nonce ++ out) ++ sig)) secret ≡ ok (nonce, plain)
unfolding decrypt
opens c secret nonce out plain sig n s back =
    let rest = (nonce ++ out) ++ sig in
    let parts : rest ≡ nonce ++ (out ++ sig) = append_assoc nonce out sig in
    let total : length rest ≡ 72 + length out =
      omega (arith, length-append (nonce ++ out) sig, length-append nonce out) in
    let prefixed = starts_with-append unsigned_tx_prefix rest in
    let body : slice (unsigned_tx_prefix ++ rest) (length unsigned_tx_prefix)
          (length (unsigned_tx_prefix ++ rest))
        ≡ ok rest =
      subst
        (λ t.
          slice (unsigned_tx_prefix ++ t) (length unsigned_tx_prefix)
            (length (unsigned_tx_prefix ++ rest))
          ≡ ok rest)
        (append-nil rest)
        (slice-middle unsigned_tx_prefix rest [] _ _ refl
          (sym (length-append unsigned_tx_prefix rest))) in
    let first : slice rest 0 chacha_iv_size ≡ ok nonce =
      subst (λ t. slice t 0 chacha_iv_size ≡ ok nonce) (sym parts)
        (slice-middle [] nonce (out ++ sig) 0 8 refl (omega arith)) in
    let second : slice rest chacha_iv_size (length rest - 64) ≡ ok out =
      subst (λ t. slice t chacha_iv_size (length rest - 64) ≡ ok out) (sym parts)
        (slice-middle nonce out sig 8 (length rest - 64) n (omega arith)) in
    let long : ltb (length rest) (chacha_iv_size + 64) ≡ false = ground arith in
    rw (prefixed, body, long, first, second, back)

-- Every signature is two scalars long.
module _ (c : Crypto) (scalar_bytes : (s : c.Scalar) → length (c.bytes s) ≡ 32) where
  length-sign_loop :
      (draws : List (Result Bytes)) (hash : Bytes) (a : c.Scalar) (sig : Bytes)
      → sign_loop c draws hash a ≡ ok sig
      → length sig ≡ 64
  unfolding sign_loop
  length-sign_loop [] hash a sig h = cc
  length-sign_loop (draw ∷ draws) hash a sig h =
      let (kb, _, h1) = >>=-eq-ok draw _ h in
      let (k, _, h2) = >>=-eq-ok (c.set_uniform kb) _ h1 in
      elim (Bool-cases (c.is_zero k)) [
        | inl z ↦ length-sign_loop draws hash a sig (rw z at h2)
        | inr z ↦
            let (e, _, h3) =
              >>=-eq-ok (scalar_from_hash c (hash ++ c.scalar_base_mult a ++ c.scalar_base_mult k))
                _ (rw z at h2) in
            elim (Bool-cases (c.is_zero e)) [
              | inl y ↦ length-sign_loop draws hash a sig (rw y at h3)
              | inr y ↦ elim (Bool-cases (c.is_zero (c.subtract k (c.multiply e a)))) [
                | inl x ↦ length-sign_loop draws hash a sig (rw (y, x) at h3)
                | inr x ↦
                    subst (λ t. length t ≡ 64) (ok-injective (rw (y, x) at h3))
                      (omega (
                        arith,
                        length-append (c.bytes e) (c.bytes (c.subtract k (c.multiply e a))),
                        scalar_bytes e,
                        scalar_bytes (c.subtract k (c.multiply e a)),
                      ))
              ]
            ]
      ]

  length-monero_signature :
      (draws : List (Result Bytes)) (hash secret sig : Bytes)
      → monero_signature c draws hash secret ≡ ok sig
      → length sig ≡ 64
  unfolding monero_signature
  length-monero_signature draws hash secret sig h =
      let (_, _, h') = >>=-eq-ok (check (length hash == 32) _) _ h in
      let (a, _, h'') = >>=-eq-ok (scalar_from_le c secret) _ h' in
      length-sign_loop draws hash a sig h''

  wrap_secret_lem :
      (r : Result c.Scalar) (raw secret : Bytes) → wrap_secret r raw ≡ ok secret → raw ≡ secret
  unfolding wrap_secret
  wrap_secret_lem (ok a) raw secret h = ok-injective h
  wrap_secret_lem (err e) raw secret h = cc
  wrap_secret_lem panic raw secret h = cc
  wrap_secret_lem stuck raw secret h = cc

  decode_secret_lem :
      (secret_hex secret : Bytes)
      → decode_secret c secret_hex ≡ ok secret
      → (Hex.decode secret_hex ≡ ok secret) × (length secret ≡ 32)
  unfolding decode_secret
  decode_secret_lem secret_hex secret h =
      let (raw, e, h1) = >>=-eq-ok (Hex.decode secret_hex) _ h in
      let (_, sized, h2) = >>=-eq-ok (check (length raw == 32) _) _ h1 in
      let same_bytes = wrap_secret_lem (scalar_from_le c raw) raw secret h2 in
      (
        e ∙ ap ok same_bytes,
        subst (λ t. length t ≡ 32) same_bytes ((==_iff (length raw) 32).0 (check→true _ _ sized)),
      )

  -- What was sealed is opened again, to the same nonce and plaintext: where encryptUnsignedTxSet
  -- gives a result, decryptUnsignedTxSet gives back what it was made from. The key from cn_slow_hash
  -- and the encodings of scalars have 32 bytes.
  pub decrypt-encrypt :
      (draws : List (Result Bytes)) (plain secret nonce sealed : Bytes)
      → length (c.cryptonight secret) ≡ 32
      → encrypt c draws plain secret nonce ≡ ok sealed
      → decrypt c sealed secret ≡ ok (nonce, plain)
  unfolding encrypt
  decrypt-encrypt draws plain secret nonce sealed key h =
      let (_, sized, h1) = >>=-eq-ok (check (length nonce == chacha_iv_size) _) _ h in
      let nonce_size = (==_iff (length nonce) 8).0 (check→true _ _ sized) in
      let (out, size, there, back) =
        chacha20_xor_twice plain (c.cryptonight secret) nonce key nonce_size in
      let (sig, signed, h2) =
        >>=-eq-ok (monero_signature c draws (c.keccak (nonce ++ out)) secret) _ (rw there at h1) in
      let sig_size = length-monero_signature draws _ secret sig signed in
      subst (λ s. decrypt c s secret ≡ ok (nonce, plain))
        (sym (append_assoc unsigned_tx_prefix (nonce ++ out) sig) ∙ ok-injective h2)
        (opens c secret nonce out plain sig nonce_size sig_size back)

  -- PatchUnsignedTxSetHex, where it gives a result, opens the set that it was given with the
  -- key whose hexadecimal form it was given, which has 32 bytes, patches the plaintext, and gives the hexadecimal form of a set that the same key opens to the
  -- same nonce and the patched plaintext. The sizes that it reports are those of the two sets. The
  -- key from cn_slow_hash and the encodings of scalars have 32 bytes.
  pub patch_unsigned_hex_lem :
      (draws : List (Result Bytes)) (set_hex secret_hex payload text : Bytes) (meta : TxSetPatch)
      → ((secret : Bytes) → length (c.cryptonight secret) ≡ 32)
      → patch_unsigned_hex c draws set_hex secret_hex payload ≡ ok (text, meta)
      → (blob : Bytes) × (secret : Bytes) × (nonce : Bytes) × (plain : Bytes) × (patched : Bytes)
        × (sealed : Bytes) × (inner : TxSetPatch) × (Hex.decode set_hex ≡ ok blob)
        × (Hex.decode secret_hex ≡ ok secret)
        × (length secret ≡ 32)
        × (decrypt c blob secret ≡ ok (nonce, plain))
        × (patch_plaintext plain payload ≡ ok (patched, inner))
        × (decrypt c sealed secret ≡ ok (nonce, patched))
        × (text ≡ Hex.encode sealed)
        × (meta ≡ record inner { input_size = length blob; output_size = length sealed })
  unfolding patch_unsigned_hex
  patch_unsigned_hex_lem draws set_hex secret_hex payload text meta key h =
      let (blob, eb, h1) = >>=-eq-ok (Hex.decode set_hex) _ h in
      let (secret, es0, h2) = >>=-eq-ok (decode_secret c secret_hex) _ h1 in
      let (decoded, secret_size) = decode_secret_lem secret_hex secret es0 in
      let ((nonce, plain), opened, h3) = >>=-eq-ok (decrypt c blob secret) _ h2 in
      let ((patched, inner), ep, h4) = >>=-eq-ok (patch_plaintext plain payload) _ h3 in
      let (sealed, es, h5) = >>=-eq-ok (encrypt c draws patched secret nonce) _ h4 in
      let result = ok-injective h5 in
      (
        blob,
        secret,
        nonce,
        plain,
        patched,
        sealed,
        inner,
        eb,
        decoded,
        secret_size,
        opened,
        ep,
        decrypt-encrypt draws patched secret nonce sealed (key secret) es,
        sym (ap (λ (q : Bytes × TxSetPatch). q.0) result),
        sym (ap (λ (q : Bytes × TxSetPatch). q.1) result),
      )
