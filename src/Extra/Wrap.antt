-- ===== src/Extra/Wrap.antt =====
-- Counts of keys that carry the index past what an `int` holds.
use xns.Common.{
  ℕ, suc, ◌+◌, ◌-◌, ◌*◌, ◌%◌, ◌^◌, ◌≤◌, ◌<◌, ◌≡◌, refl, ◌∙◌, List, [], ◌∷◌, ◌++◌, Bytes, ok, panic,
  length, drop, arith, All, drop-append_length, length-append, le→ltb_false,
}
use xns.Common.Int.{pos, negsuc, wrap}
use xns.Common.Suffix.{drop-next, index-at}
use xns.Protocol.{Payload}
use xns.Extra.{field, keys_field, overrun, extract_loop, extract_payloads}
use xns.Extra.Varint.{varint, read_varint-varint}
use xns.Extra.Fields.{Field, encode_fields, IsField, all_found}
use xns.Extra.Extraction.{extract_loop_step, extract_loop-encode_fields, length-encode_fields}

-- A field of additional keys at `i`, and the index that the count leads to.
pub keys_at :
    (extra tail : Bytes) (i count : ℕ) (out : List Payload)
    → count < 2 ^ 63
    → drop i extra ≡ 4 ∷ (varint 8 count ++ tail)
    → field extra i out ≡ overrun extra (wrap (i + 1 + length (varint 8 count) + count * 32)) out
unfolding field keys_field
keys_at extra tail i count out small at = rw (
  index-at extra i 4 (varint 8 count ++ tail) at,
  read_varint-varint count (i + 1) extra tail small
      (drop-next extra i 4 (varint 8 count ++ tail) at),
)

-- A count of at least 2 ^ 58 makes the index negative, if it does not wrap all the way round.
negative_index :
    (extra tail : Bytes) (i count : ℕ) (out : List Payload)
    → 2 ^ 58 ≤ count
    → count * 32 + i + 1 + length (varint 8 count) < 2 ^ 64
    → drop i extra ≡ 4 ∷ (varint 8 count ++ tail)
    → (k : ℕ) × (field extra i out ≡ ok (negsuc k, out))
negative_index extra tail i count out big fits at =
    let next = i + 1 + length (varint 8 count) + count * 32 in
    let kept : next % 2 ^ 64 ≡ next = omega arith in
    (
      2 ^ 64 - 1 - next,
      keys_at extra tail i count out (omega arith) at
          ∙ (unfold overrun in rw (kept, le→ltb_false next (2 ^ 63) (omega arith))),
    )

extract_loop_negative :
    (fuel k : ℕ) (extra : Bytes) (out : List Payload)
    → extract_loop (suc fuel) extra (negsuc k) out ≡ panic
unfolding extract_loop
extract_loop_negative fuel k extra out = refl

-- Fields that hold the payloads `ps`, and a field of additional keys behind them.
module _ (fs : List Field) (count : ℕ) (tail : Bytes) (ps : List Payload) (h : All IsField fs)
    (good : all_found fs ≡ ok ps) where
  abbrev extra : Bytes
  extra = encode_fields fs ++ 4 ∷ (varint 8 count ++ tail)

  length-extra :
      length extra ≡ length (encode_fields fs) + 1 + length (varint 8 count) + length tail
  length-extra = omega (
    arith,
    length-append (encode_fields fs) (4 ∷ (varint 8 count ++ tail)),
    length-append (varint 8 count) tail,
  )

  at_keys : drop (length (encode_fields fs)) extra ≡ 4 ∷ (varint 8 count ++ tail)
  at_keys = drop-append_length (encode_fields fs) (4 ∷ (varint 8 count ++ tail))

  -- The loop comes to the field of keys.
  reach_keys :
      (fuel : ℕ)
      → length extra < 2 ^ 63
      → extract_loop (length fs + fuel) extra (pos 0) []
        ≡ extract_loop fuel extra (pos (length (encode_fields fs))) ps
  reach_keys fuel small =
      extract_loop-encode_fields fs fuel 0 extra (4 ∷ (varint 8 count ++ tail)) [] small h
        (omega arith) refl
      ∙ rw good
          (let e : 0 + length (encode_fields fs) ≡ length (encode_fields fs) = omega arith in rw e)

  -- Behind well-formed fields with good payloads, a field of additional keys whose count is 2 ^ 58 or
  -- more ends ExtractPayloads in a panic, if the length of all and 32 times the count do not sum up to
  -- 2 ^ 64: the int index becomes negative.
  pub extract_payloads_panics :
      2 ^ 58 ≤ count → length extra + count * 32 < 2 ^ 64 → extract_payloads extra ≡ panic
  unfolding extract_payloads
  extract_payloads_panics big fits =
      let n = length (encode_fields fs) in
      let spare = length extra - length fs - 1 in
      let fuel : length extra + 1 ≡ length fs + suc (suc spare) =
        omega (arith, length-extra, length-encode_fields fs) in
      let (k, negative) =
        negative_index extra tail n count ps big (omega (arith, length-extra)) at_keys in
      rw fuel (
        reach_keys (suc (suc spare)) (omega arith)
        ∙ extract_loop_step (suc spare) n extra ps (omega (arith, length-extra))
        ∙ rw negative (extract_loop_negative spare k extra ps))
