-- ===== src/Extra.antt =====
-- pkg/xns/extra.go: the payloads in the extra field of a Monero transaction.
-- An index is a Go `int`; it stays below 2 ^ 63 except where a count of keys is added to it.
pub mod Varint
pub mod Fields
pub mod Extraction
pub mod Wrap
pub mod Fuel
pub mod Cycle
pub mod Provenance
pub mod Rounds
pub mod Ending
use xns.Common.{
  ℕ, zero, suc, ◌+◌, ◌*◌, ◌%◌, ◌^◌, true, false, not, List, [], ◌∷◌, ◌++◌, Bytes, Result, ok, err,
  panic, stuck, check, index, ◌>>=◌, ◌>>◌, nonce_length, nonce_data, extra_overrun, varint_large,
  varint_truncated, unsupported_tag, length, take, drop, leb, ltb, ◌==◌, if◌then◌else◌,
}
use xns.Common.Int.{ℤ, pos, negsuc, wrap}
use xns.Protocol.{Payload, payload_size, decode_payload}
use Prim.Native.Nat.{bit_and, bit_or}

abbrev pub tx_extra_nonce : ℕ
tx_extra_nonce = 2

abbrev pub tx_extra_pub_key : ℕ
tx_extra_pub_key = 1

abbrev pub tx_extra_add_keys : ℕ
tx_extra_add_keys = 4

-- The bytes from `i` on, the value so far and the shift of the next group.
unfoldable pub varint_loop : Bytes → ℕ → ℕ → ℕ → Result (ℕ × ℕ)
varint_loop [] i value shift = err varint_truncated
varint_loop (b ∷ bs) i value shift =
    let value' = bit_or value (bit_and b 0x7f * 2 ^ shift % 2 ^ 64) in
    let rest = varint_loop bs (i + 1) value' (shift + 7) in
    if ltb b 0x80 then ok (value', i + 1) else if ltb 63 (shift + 7) then err varint_large else rest

-- The value, and the index behind it.
unfoldable pub read_varint : Bytes → ℕ → Result (ℕ × ℕ)
unfolding varint_loop
read_varint raw i = varint_loop (drop i raw) i 0 0

-- The test at the end of a round: `i > len(extra)`. A negative index passes it.
pub overrun : Bytes → ℤ → List Payload → Result (ℤ × List Payload)
overrun extra (pos i) out = do check (not (ltb (length extra) i)) extra_overrun; ok (pos i, out)
overrun extra (negsuc k) out = ok (negsuc k, out)

pub nonce_field : Bytes → ℕ → List Payload → Result (ℤ × List Payload)
unfolding overrun
nonce_field extra i out = do
  check (not (leb (length extra) i)) nonce_length
  n ← index extra i
  let start = i + 1
  check (not (ltb (length extra) (start + n))) nonce_data
  let bytes = take n (drop start extra)
  out' ← if n == payload_size then (do p ← decode_payload bytes; ok (out ++ p ∷ [])) else ok out
  overrun extra (pos (start + n)) out'

pub keys_field : Bytes → ℕ → List Payload → Result (ℤ × List Payload)
unfolding overrun
keys_field extra i out = do
  (n, next) ← read_varint extra i
  overrun extra (wrap (next + n * 32)) out

-- One round of the loop, at an index below the length.
pub field : Bytes → ℕ → List Payload → Result (ℤ × List Payload)
unfolding overrun nonce_field keys_field
field extra i out = do
  tag ← index extra i
  let i' = i + 1
  let keys = keys_field extra i' out
  let nonce = nonce_field extra i' out
  let key = overrun extra (pos (i' + 32)) out
  if tag == 0
      then ok (pos i', out)
      else if tag == tx_extra_pub_key
      then key
      else if tag == tx_extra_nonce
      then nonce
      else if tag == tx_extra_add_keys
      then keys
      else err (unsupported_tag tag)

-- A negative index is below the length, and the first read at it panics.
unfoldable pub extract_loop : ℕ → Bytes → ℤ → List Payload → Result (List Payload)
unfolding field
extract_loop zero extra i out = stuck
extract_loop (suc fuel) extra (negsuc k) out = panic
extract_loop (suc fuel) extra (pos i) out = elim (ltb i (length extra)) [
  | true ↦ do (i', out') ← field extra i out; extract_loop fuel extra i' out'
  | false ↦ ok out
]

-- An index that grows passes the end within as many rounds as there are bytes.
unfoldable pub extract_payloads : Bytes → Result (List Payload)
unfolding extract_loop
extract_payloads extra = extract_loop (length extra + 1) extra (pos 0) []
