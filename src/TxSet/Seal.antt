-- ===== src/TxSet/Seal.antt =====
-- `PatchUnsignedTxSetHex`: an unsigned transaction set is opened, patched and sealed again.
use xns.Common.{
  ℕ, ◌+◌, ◌-◌, not, List, [], ◌∷◌, ◌++◌, Bytes, codes, Result, ok, err, panic, stuck, ◌>>=◌, ◌>>◌,
  check, length, ltb, ◌==◌, secret_size, invalid_secret, not_unsigned_tx_set, tx_set_short,
  chacha_nonce_size,
}
use xns.Hex
use xns.Messages.{message}
use xns.TxSet.{TxSetPatch, starts_with, slice, patch_plaintext}
use xns.TxSet.Cipher.{chacha20_xor}
use xns.TxSet.Signature.{Crypto, scalar_from_le, monero_signature}

abbrev pub unsigned_tx_prefix : Bytes
unsigned_tx_prefix = codes "Monero unsigned tx set" ++ 5 ∷ []

abbrev pub chacha_iv_size : ℕ
chacha_iv_size = 8

abbrev pub monero_sig_size : ℕ
monero_sig_size = 64

-- `fmt.Errorf("invalid secret key scalar: %w", err)`
unfoldable pub wrap_secret : {A : Type 0} → Result A → Bytes → Result Bytes
wrap_secret (ok a) raw = ok raw
wrap_secret (err e) raw = err (invalid_secret (message e))
wrap_secret panic raw = panic
wrap_secret stuck raw = stuck

unfoldable pub decode_secret : Crypto → Bytes → Result Bytes
unfolding wrap_secret
decode_secret c secret_hex = do
  raw ← Hex.decode secret_hex
  check (length raw == 32) secret_size
  wrap_secret (scalar_from_le c raw) raw

unfoldable pub decrypt : Crypto → Bytes → Bytes → Result (Bytes × Bytes)
decrypt c blob view_secret = do
  check (starts_with unsigned_tx_prefix blob) not_unsigned_tx_set
  encrypted ← slice blob (length unsigned_tx_prefix) (length blob)
  check (not (ltb (length encrypted) (chacha_iv_size + monero_sig_size))) tx_set_short
  nonce ← slice encrypted 0 chacha_iv_size
  ciphertext ← slice encrypted chacha_iv_size (length encrypted - monero_sig_size)
  plain ← chacha20_xor ciphertext (c.cryptonight view_secret) nonce
  ok (nonce, plain)

unfoldable pub encrypt : (c : Crypto) → List (Result Bytes) → Bytes → Bytes → Bytes → Result Bytes
encrypt c draws plain view_secret nonce = do
  check (length nonce == chacha_iv_size) chacha_nonce_size
  ciphertext ← chacha20_xor plain (c.cryptonight view_secret) nonce
  let encrypted = nonce ++ ciphertext
  sig ← monero_signature c draws (c.keccak encrypted) view_secret
  ok (unsigned_tx_prefix ++ encrypted ++ sig)

-- The sizes are those of the sealed sets.
unfoldable pub patch_unsigned_hex :
    Crypto → List (Result Bytes) → Bytes → Bytes → Bytes → Result (Bytes × TxSetPatch)
patch_unsigned_hex c draws unsigned_hex view_secret_hex payload = do
  blob ← Hex.decode unsigned_hex
  view_secret ← decode_secret c view_secret_hex
  (nonce, plain) ← decrypt c blob view_secret
  (patched_plain, meta) ← patch_plaintext plain payload
  patched ← encrypt c draws patched_plain view_secret nonce
  ok (Hex.encode patched, record meta { input_size = length blob; output_size = length patched })
