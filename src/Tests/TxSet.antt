-- ===== src/Tests/TxSet.antt =====
-- Runs of pkg/monero/txset.go.
use xns.Common.{
  codes, ℕ, ◌+◌, ◌≡◌, refl, false, List, [], ◌∷◌, Bytes, Result, ok, length, replicate, index, map,
  take,
}
use xns.Hex
use xns.Hex.RoundTrip.{to_lower}
use xns.Edwards.{from_le}
use xns.Extra.{extract_payloads}
use xns.TxSet.{
  TxSetPatch, patch_plaintext, locate_default_extra, search_loop, index_of, starts_with, slice,
  is_default_extra, the_only,
}
use xns.TxSet.Shape.{around, default_extra, payload_extra}
use xns.TxSet.Patch.{patch_plaintext_lem, claim_found, extract_payloads-payload_extra}
use xns.TxSet.Cipher.{
  chacha20_xor, chacha20_block, quarter_round, xor_bytes, xor_loop, next, initial,
}
use xns.TxSet.Signature.{
  Crypto, to_le, scalar_from_le, scalar_from_hash, sign_loop, monero_signature,
}
use xns.TxSet.Seal.{patch_unsigned_hex, decode_secret, encrypt, decrypt}
use xns.TxSet.Opening.{patch_unsigned_hex_lem}
use xns.Protocol.Payloads.{decode_payload-build_payload}
use xns.Tests.Data.{name, key, payload_bytes, build_payload_run}

abbrev pub tx_key : Bytes
tx_key = replicate 32 5

abbrev plain : Bytes
plain = around (9 ∷ 8 ∷ []) (default_extra tx_key) (7 ∷ 6 ∷ [])

abbrev patched : Bytes
patched = around (9 ∷ 8 ∷ []) (payload_extra tx_key payload_bytes) (7 ∷ 6 ∷ [])

abbrev meta : TxSetPatch
meta = record {
  extra_length_offset = 2;
  old_extra_length = 44;
  new_extra_length = 99;
  payload_hex = Hex.encode payload_bytes;
  new_extra_hex = Hex.encode (payload_extra tx_key payload_bytes);
  input_size = 0;
  output_size = 0;
}

patch_run : patch_plaintext plain payload_bytes ≡ ok (patched, meta)
unfolding patch_plaintext locate_default_extra search_loop index_of starts_with slice
    is_default_extra the_only index
patch_run = refl

patch_plaintext_lem_example :
    (pre : Bytes) × (k : Bytes) × (post : Bytes) × (length k ≡ 32)
    × (length payload_bytes ≡ 64)
    × (plain ≡ around pre (default_extra k) post)
    × (patched ≡ around pre (payload_extra k payload_bytes) post)
patch_plaintext_lem_example = patch_plaintext_lem plain payload_bytes patched meta patch_run

claim_found_example :
    (pre : Bytes) × (k : Bytes) × (post : Bytes) × (plain ≡ around pre (default_extra k) post)
    × (patched ≡ around pre (payload_extra k payload_bytes) post)
    × (extract_payloads (payload_extra k payload_bytes)
        ≡ ok (
            record {
              name = name;
              owner_key = map to_lower (Hex.encode key);
              payload_hex = Hex.encode payload_bytes;
            }
            ∷ []))
claim_found_example =
    claim_found name (Hex.encode key) payload_bytes plain patched meta build_payload_run patch_run

-- The first bytes of the key stream of a key and a nonce of zeros.
stream_run :
    take 8 (chacha20_block (initial (replicate 32 0) (replicate 8 0)))
    ≡ 0x76 ∷ 0xb8 ∷ 0xe0 ∷ 0xad ∷ 0xa0 ∷ 0xf1 ∷ 0x3d ∷ 0x90 ∷ []
unfolding chacha20_block quarter_round initial from_le
stream_run = refl

-- Scalars as numbers, and hashes of a constant.
abbrev pub toy : Crypto
toy = record {
  Scalar = ℕ;
  keccak = λ bs. replicate 32 3;
  cryptonight = λ bs. replicate 32 4;
  set_canonical = λ bs. ok (from_le bs);
  set_uniform = λ bs. ok (from_le bs);
  bytes = λ s. to_le 32 s;
  is_zero = λ s. false;
  multiply = λ a b. a + b;
  subtract = λ a b. a + b;
  scalar_base_mult = λ s. to_le 32 s;
}

abbrev pub draws : List (Result Bytes)
draws = ok (replicate 64 1) ∷ []

abbrev pub value : Result Bytes → Bytes
value (ok bs) = bs
value _ = []

abbrev pub sealed : Bytes
sealed = value (encrypt toy draws plain tx_key (replicate 8 2))

seal_run : encrypt toy draws plain tx_key (replicate 8 2) ≡ ok sealed
unfolding encrypt chacha20_xor chacha20_block quarter_round xor_bytes xor_loop next initial from_le
    monero_signature scalar_from_le scalar_from_hash sign_loop
seal_run = refl

-- The payload of the runs, in an extra field.
pub payload_found :
    extract_payloads (payload_extra tx_key payload_bytes)
    ≡ ok (
        record {
          name = name;
          owner_key = map to_lower (Hex.encode key);
          payload_hex = Hex.encode payload_bytes;
        }
        ∷ [])
payload_found =
    let (_, decoded) =
      decode_payload-build_payload name (Hex.encode key) payload_bytes build_payload_run in
    extract_payloads-payload_extra tx_key payload_bytes _ refl refl decoded

-- The whole of the patch, on the sealed set.
abbrev result : Result (Bytes × TxSetPatch)
result = patch_unsigned_hex toy draws (Hex.encode sealed) (Hex.encode tx_key) payload_bytes

abbrev patched_hex : Result (Bytes × TxSetPatch) → Bytes
patched_hex (ok (text, m)) = text
patched_hex _ = []

abbrev patched_meta : Result (Bytes × TxSetPatch) → TxSetPatch
patched_meta (ok (text, m)) = m
patched_meta _ = meta

hex_run : result ≡ ok (patched_hex result, patched_meta result)
unfolding patch_unsigned_hex Hex.decode Hex.encode decode_secret decrypt patch_plaintext
    locate_default_extra search_loop index_of starts_with slice is_default_extra the_only index
    encrypt chacha20_xor chacha20_block quarter_round xor_bytes xor_loop next initial from_le
    monero_signature scalar_from_le scalar_from_hash sign_loop codes
hex_run = refl

patch_unsigned_hex_lem_example :
    (blob : Bytes) × (secret : Bytes) × (nonce : Bytes) × (open_plain : Bytes)
    × (open_patched : Bytes) × (after : Bytes) × (inner : TxSetPatch) × (Hex.decode
          (Hex.encode sealed)
        ≡ ok blob)
    × (Hex.decode (Hex.encode tx_key) ≡ ok secret)
    × (length secret ≡ 32)
    × (decrypt toy blob secret ≡ ok (nonce, open_plain))
    × (patch_plaintext open_plain payload_bytes ≡ ok (open_patched, inner))
    × (decrypt toy after secret ≡ ok (nonce, open_patched))
    × (patched_hex result ≡ Hex.encode after)
    × (patched_meta result ≡ record inner { input_size = length blob; output_size = length after })
patch_unsigned_hex_lem_example =
    patch_unsigned_hex_lem toy (λ s. refl) draws (Hex.encode sealed) (Hex.encode tx_key)
      payload_bytes (patched_hex result) (patched_meta result) (λ secret. refl) hex_run
