-- ===== src/Tests/Extra.antt =====
-- Runs of pkg/xns/extra.go.
use xns.Common.{
  ℕ, zero, suc, subst, Result, ◌+◌, ◌*◌, ◌<◌, ◌≢◌, ok, ok-injective, Bytes, ◌-◌, ◌^◌, ◌≡◌, refl,
  panic, stuck, List, [], ◌∷◌, ◌++◌, replicate, arith,
}
use xns.Common.Int.{pos}
use xns.Extra.{varint_loop, read_varint, extract_loop, extract_payloads}
use xns.Extra.Varint.{varint}
use xns.Extra.Fields.{
  Field, padding, pub_key, nonce, add_keys, encode_field, encode_fields, found, all_found,
}
use xns.Extra.Extraction.{extract_payloads-encode_fields}
use xns.Extra.Wrap.{extract_payloads_panics}
use xns.Extra.Cycle.{extract_loop_cycles}
use xns.Extra.Ending.{extract_payloads_ends}
use xns.Tests.Data.{payload_bytes}

-- What `xns claim` puts into a transaction, behind the transaction's own key.
abbrev claim_fields : List Field
claim_fields =
    pub_key (replicate 32 7) ∷ nonce payload_bytes ∷ add_keys 1 (replicate 32 9) ∷ padding ∷ []

extract_payloads-encode_fields_example :
    extract_payloads (encode_fields claim_fields) ≡ all_found claim_fields
unfolding encode_fields encode_field varint
extract_payloads-encode_fields_example =
    extract_payloads-encode_fields claim_fields (omega arith) (omega arith)

-- A count of 2 ^ 58 keys behind the transaction's key.
extract_payloads_panics_example :
    extract_payloads
      (encode_fields (pub_key (replicate 32 7) ∷ []) ++ 4 ∷ (varint 8 (2 ^ 58) ++ []))
    ≡ panic
unfolding encode_fields encode_field varint all_found found
extract_payloads_panics_example =
    extract_payloads_panics (pub_key (replicate 32 7) ∷ []) (2 ^ 58) [] [] (omega arith) refl
      (omega arith) (omega arith)

-- A count of 2 ^ 59 - 1 keys behind 22 zeros.
extract_loop_cycles_example :
    extract_loop 1000000
      (encode_fields (pub_key (replicate 32 7) ∷ [])
        ++ (encode_fields (replicate 22 padding) ++ 4 ∷ (varint 8 (2 ^ 59 - 1) ++ [])))
      (pos 0)
      []
    ≡ stuck
unfolding encode_fields encode_field varint all_found found
extract_loop_cycles_example =
    extract_loop_cycles (pub_key (replicate 32 7) ∷ []) (replicate 22 padding) 1 [] [] []
      (omega arith) (omega arith) refl refl refl (omega arith) 1000000 (omega arith)

-- A tag of keys, no key, and two bytes of padding.
abbrev no_keys : Bytes
no_keys = 4 ∷ 0 ∷ 0 ∷ 0 ∷ []

small_count :
    (a b n next : ℕ)
    → ◌≡◌ {A = Result (ℕ × ℕ)} (ok (a, b)) (ok (n, next))
    → b + a * 32 < 2 ^ 63
    → next + n * 32 < 2 ^ 63
small_count a b n next e h = subst (λ (r : ℕ × ℕ). r.1 + r.0 * 32 < 2 ^ 63) (ok-injective e) h

no_keys-counts : (i n next : ℕ) → read_varint no_keys i ≡ ok (n, next) → next + n * 32 < 2 ^ 63
unfolding read_varint varint_loop
no_keys-counts zero n next h = small_count 4 1 n next h (omega arith)
no_keys-counts (suc zero) n next h = small_count 0 2 n next h (omega arith)
no_keys-counts (suc (suc zero)) n next h = small_count 0 3 n next h (omega arith)
no_keys-counts (suc (suc (suc zero))) n next h = small_count 0 4 n next h (omega arith)
no_keys-counts (suc (suc (suc (suc zero)))) n next h = cc
no_keys-counts (suc (suc (suc (suc (suc i))))) n next h = cc

extract_payloads_ends_example : extract_payloads no_keys ≢ stuck
extract_payloads_ends_example = extract_payloads_ends no_keys no_keys-counts
