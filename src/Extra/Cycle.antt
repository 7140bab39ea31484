-- ===== src/Extra/Cycle.antt =====
-- Counts of keys that carry the index back: the loop does not end.
use xns.Common.{
  ℕ, zero, suc, ◌+◌, ◌-◌, ◌*◌, ◌%◌, ◌^◌, ◌≤◌, ◌<◌, ◌≡◌, refl, subst, ◌∙◌, List, [], ◌∷◌, ◌++◌,
  Bytes, ok, stuck, length, drop, arith, All, length-append, lt→ltb, le→ltb_false,
  drop-append_length,
}
use xns.Common.Int.{pos}
use xns.Common.Suffix.{drop-skip}
use xns.Protocol.{Payload}
use xns.Extra.{field, overrun, extract_loop}
use xns.Extra.Varint.{varint, length-varint}
use xns.Extra.Fields.{Field, encode_fields, IsField, all_found}
use xns.Extra.Extraction.{extract_loop_step, extract_loop-encode_fields}
use xns.Extra.Fuel.{stuck_before}
use xns.Extra.Wrap.{keys_at}

-- `front`, then `lap`, then a count of keys that carries the index back over `lap`.
module _ (front lap : List Field) (m : ℕ) (tail : Bytes) (ps qs : List Payload)
    (well : All IsField front) (well_lap : All IsField lap) (found_front : all_found front ≡ ok ps)
    (found_lap : all_found lap ≡ ok qs) (lap_size : length (encode_fields lap) + 10 ≡ 32 * m)
    (small : m ≤ 2 ^ 50) where
  abbrev extra : Bytes
  extra = encode_fields front ++ (encode_fields lap ++ 4 ∷ (varint 8 (2 ^ 59 - m) ++ tail))

  start : ℕ
  start = length (encode_fields front)

  length-extra : length extra ≡ start + length (encode_fields lap) + 10 + length tail
  unfolding start
  length-extra = omega (
    arith,
    length-append (encode_fields front) (encode_fields lap ++ 4 ∷ (varint 8 (2 ^ 59 - m) ++ tail)),
    length-append (encode_fields lap) (4 ∷ (varint 8 (2 ^ 59 - m) ++ tail)),
    length-append (varint 8 (2 ^ 59 - m)) tail,
    length-varint 8 (2 ^ 59 - m) (omega arith),
  )

  at_lap : drop start extra ≡ encode_fields lap ++ 4 ∷ (varint 8 (2 ^ 59 - m) ++ tail)
  unfolding start
  at_lap = drop-append_length (encode_fields front) _

  at_keys : drop (start + length (encode_fields lap)) extra ≡ 4 ∷ (varint 8 (2 ^ 59 - m) ++ tail)
  at_keys = drop-skip extra start (encode_fields lap) _ at_lap

  -- The keys take the index back to where the lap starts.
  jump_back :
      (out : List Payload)
      → length extra < 2 ^ 63
      → field extra (start + length (encode_fields lap)) out ≡ ok (pos start, out)
  unfolding start overrun
  jump_back out short =
      let next =
        start
        + length (encode_fields lap)
        + 1
        + length (varint 8 (2 ^ 59 - m))
        + (2 ^ 59 - m) * 32 in
      let nine = length-varint 8 (2 ^ 59 - m) (omega arith) in
      let round_trip : next % 2 ^ 64 ≡ start = omega (arith, nine, length-extra) in
      keys_at extra tail (start + length (encode_fields lap)) (2 ^ 59 - m) out (omega arith) at_keys
      ∙ rw (
        round_trip,
        lt→ltb start (2 ^ 63) (omega (arith, length-extra)),
        le→ltb_false (length extra) start (omega (arith, length-extra)),
      )

  lap_once :
      (fuel : ℕ) (out : List Payload)
      → length extra < 2 ^ 63
      → extract_loop (length lap + suc fuel) extra (pos start) out
        ≡ extract_loop fuel extra (pos start) (out ++ qs)
  lap_once fuel out short =
      let at_end = start + length (encode_fields lap) in
      extract_loop-encode_fields lap (suc fuel) start extra (4 ∷ (varint 8 (2 ^ 59 - m) ++ tail))
        out short well_lap (omega (arith, length-extra)) at_lap
      ∙ rw found_lap (
          extract_loop_step fuel at_end extra (out ++ qs) (omega (arith, length-extra))
          ∙ rw (jump_back (out ++ qs) short))

  laps :
      (n : ℕ) (out : List Payload)
      → length extra < 2 ^ 63
      → extract_loop (n * suc (length lap)) extra (pos start) out ≡ stuck
  unfolding extract_loop
  laps zero out short = let e : zero * suc (length lap) ≡ 0 = omega arith in rw e
  laps (suc n) out short =
      let e : suc n * suc (length lap) ≡ length lap + suc (n * suc (length lap)) = omega arith in
      rw e (lap_once (n * suc (length lap)) out short ∙ laps n (out ++ qs) short)

  -- Two stretches of well-formed fields with good payloads, the second ten bytes short of 32 times `m`,
  -- and behind them a field of 2 ^ 59 - m additional keys, in less than 2 ^ 63 bytes: the int index wraps
  -- back to the second stretch, and however many rounds are allowed, they do not end the loop.
  pub extract_loop_cycles :
      (fuel : ℕ) → length extra < 2 ^ 63 → extract_loop fuel extra (pos 0) [] ≡ stuck
  unfolding start
  extract_loop_cycles fuel short =
      let rounds = fuel * suc (length lap) in
      let more : length front + rounds ≡ fuel + (length front + (rounds - fuel)) = grind arith in
      stuck_before extra fuel (length front + (rounds - fuel)) (pos 0) [] (
        subst (λ n. extract_loop n extra (pos 0) [] ≡ stuck) more
          (extract_loop-encode_fields front rounds 0 extra
              (encode_fields lap ++ 4 ∷ (varint 8 (2 ^ 59 - m) ++ tail)) [] short well (omega arith)
              refl
            ∙ rw found_front
                (let e : 0 + start ≡ start = omega arith in rw e (laps fuel ps short))))
