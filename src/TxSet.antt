-- ===== src/TxSet.antt =====
-- pkg/monero/txset.go: the payload put into an unsigned transaction set, in the clear.
pub mod Search
pub mod Shape
pub mod Patch
pub mod Cipher
pub mod Signature
pub mod Seal
pub mod Involution
pub mod Opening
use xns.Common.{
  ℕ, zero, suc, ◌+◌, ◌-◌, ◌%◌, Bool, true, false, ◌&&◌, not, Option, none, some, List, [], ◌∷◌,
  ◌++◌, Bytes, Result, ok, err, panic, stuck, check, index, ◌>>=◌, ◌>>◌, tx_set_payload,
  extra_not_found, extra_ambiguous, extra_no_pub_key, extra_too_long, length, take, drop, ltb, leb,
  ◌==◌, if◌then◌else◌,
}
use xns.Hex
use xns.Protocol.{payload_size}
use xns.Extra.{tx_extra_nonce, tx_extra_pub_key}

-- The nonce with an encrypted payment id of eight zeros.
abbrev pub default_nonce : Bytes
default_nonce = 2 ∷ 9 ∷ 1 ∷ 0 ∷ 0 ∷ 0 ∷ 0 ∷ 0 ∷ 0 ∷ 0 ∷ 0 ∷ []

pub record TxSetPatch : Type 0 where
  pub extra_length_offset : ℕ
  pub old_extra_length : ℕ
  pub new_extra_length : ℕ
  pub payload_hex : Bytes
  pub new_extra_hex : Bytes
  pub input_size : ℕ
  pub output_size : ℕ

-- `bytes.HasPrefix(xs, p)`.
unfoldable pub starts_with : Bytes → Bytes → Bool
starts_with [] xs = true
starts_with (p ∷ ps) [] = false
starts_with (p ∷ ps) (x ∷ xs) = p == x && starts_with ps xs

-- One position further on.
abbrev pub further : Option ℕ → Option ℕ
further none = none
further (some k) = some (suc k)

-- `bytes.Index(xs, p)`, for a `p` that is not empty; `none` is -1.
unfoldable pub index_of : Bytes → Bytes → Option ℕ
index_of p [] = none
index_of p (x ∷ xs) = if starts_with p (x ∷ xs) then some 0 else further (index_of p xs)

-- `xs[lo:hi]`, which panics out of range.
unfoldable pub slice : Bytes → ℕ → ℕ → Result Bytes
slice xs lo hi = if leb lo hi && leb hi (length xs) then ok (take (hi - lo) (drop lo xs)) else panic

abbrev pub old_length : ℕ
old_length = 33 + length default_nonce

-- An occurrence of the nonce at `i` ends a default extra field: its 33 bytes before it begin with
-- the tag of a key, and the byte before those is the field's length.
unfoldable pub is_default_extra : Bytes → ℕ → Result Bool
is_default_extra plain i = if ltb i 34 then ok false else do
  tag ← index plain (i - 33)
  size ← index plain (i - 34)
  ok (tag == tx_extra_pub_key && size == old_length)

-- The search goes on behind each occurrence; `off` grows, so `length plain + 1` rounds are enough.
unfoldable pub search_loop : ℕ → Bytes → ℕ → List ℕ → Result (List ℕ)
search_loop zero plain off matches = stuck
search_loop (suc fuel) plain off matches = elim (index_of default_nonce (drop off plain)) [
  | none ↦ ok matches
  | some k ↦ do
    fits ← is_default_extra plain (k + off)
    search_loop fuel plain (k + off + 1) (if fits then matches ++ (k + off - 34) ∷ [] else matches)
]

-- One match is wanted, no more and no less.
unfoldable pub the_only : Bytes → List ℕ → Result (ℕ × Bytes)
the_only plain matches = do
  check (not (length matches == 0)) extra_not_found
  check (not (ltb 1 (length matches))) (extra_ambiguous (length matches))
  offset ← index matches 0
  extra ← slice plain (offset + 1) (offset + 1 + old_length)
  ok (offset, extra)

unfoldable pub locate_default_extra : Bytes → Result (ℕ × Bytes)
locate_default_extra plain = do
  matches ← search_loop (length plain + 1) plain 0 []
  the_only plain matches

unfoldable pub patch_plaintext : Bytes → Bytes → Result (Bytes × TxSetPatch)
patch_plaintext plain payload = do
  check (length payload == payload_size) tx_set_payload
  (offset, old_extra) ← locate_default_extra plain
  tx_pub_key ← slice old_extra 0 33
  tag ← index tx_pub_key 0
  check (tag == tx_extra_pub_key) extra_no_pub_key
  let new_extra = tx_pub_key ++ tx_extra_nonce ∷ length payload % 256 ∷ payload
  check (not (ltb 127 (length new_extra))) extra_too_long
  old_len ← index plain offset
  front ← slice plain 0 offset
  back ← slice plain (offset + 1 + old_len) (length plain)
  ok (
    front ++ length new_extra % 256 ∷ (new_extra ++ back),
    record {
      extra_length_offset = offset;
      old_extra_length = old_len;
      new_extra_length = length new_extra;
      payload_hex = Hex.encode payload;
      new_extra_hex = Hex.encode new_extra;
      input_size = 0;
      output_size = 0;
    },
  )
