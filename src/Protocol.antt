-- ===== src/Protocol.antt =====
-- pkg/xns/protocol.go: names, payloads and the years that an amount pays for.
pub mod Names
pub mod Payloads
pub mod Owners
pub mod Amounts
pub mod Ending
use xns.Common.{
  ℕ, zero, suc, ◌+◌, ◌-◌, ◌*◌, ◌/◌, ◌%◌, Bool, true, false, ◌&&◌, ◌||◌, not, [], ◌∷◌, ◌++◌, Bytes,
  Result, Error, Option, none, some, ok, check, index, ◌>>=◌, ◌>>◌, name_length, name_charset,
  name_start, name_end, name_field_size, name_padding, payload_length, owner_key_length,
  owner_key_zero, amount_below, amount_multiple, length, take, drop, copy_into, leb, ltb, ◌==◌,
  if◌then◌else◌,
}
use xns.Hex
use xns.Edwards.{valid_owner_point}

abbrev pub name_size : ℕ
name_size = 32

abbrev pub owner_key_size : ℕ
owner_key_size = 32

abbrev pub payload_size : ℕ
payload_size = name_size + owner_key_size

abbrev pub atomic_units : ℕ
atomic_units = 1_000_000_000_000

abbrev pub year_amount : ℕ
year_amount = atomic_units / 100

-- 365 days of blocks, one each 120 seconds.
abbrev pub blocks_per_year : ℕ
blocks_per_year = 365 * 24 * 60 * 60 / 120

pub record Payload : Type 0 where
  pub name : Bytes
  pub owner_key : Bytes
  pub payload_hex : Bytes

unfoldable pub is_name_edge : ℕ → Bool
is_name_edge c = leb b'a' c && leb c b'z' || leb b'0' c && leb c b'9'

unfoldable pub is_name_char : ℕ → Bool
unfolding is_name_edge
is_name_char c = is_name_edge c || c == b'-'

-- The loop of `ValidName` over the characters.
all_name_chars : Bytes → Bool
all_name_chars [] = true
all_name_chars (c ∷ cs) = is_name_char c && all_name_chars cs

unfoldable pub valid_name : Bytes → Result (Unit {0})
unfolding all_name_chars
valid_name name = do
  check (not (ltb (length name) 1 || ltb name_size (length name))) name_length
  check (all_name_chars name) name_charset
  first ← index name 0
  check (is_name_edge first) name_start
  last ← index name (length name - 1)
  check (is_name_edge last) name_end

unfoldable pub encode_name : Bytes → Result Bytes
encode_name name = do valid_name name; ok (copy_into name_size 0 name)

-- The index of the first zero byte, or the length.
zero_index : Bytes → ℕ
zero_index [] = 0
zero_index (b ∷ bs) = if b == 0 then 0 else suc (zero_index bs)

unfoldable pub all_zero : Bytes → Bool
all_zero [] = true
all_zero (b ∷ bs) = b == 0 && all_zero bs

unfoldable pub decode_name : Bytes → Result Bytes
unfolding zero_index all_zero
decode_name raw = do
  check (length raw == name_size) name_field_size
  let end = zero_index raw
  check (all_zero (drop end raw)) name_padding
  let name = take end raw
  valid_name name
  ok name

unfoldable pub decode_owner_key : Bytes → Result Bytes
unfolding all_zero
decode_owner_key owner_key_hex = do
  raw ← Hex.decode owner_key_hex
  check (length raw == owner_key_size) owner_key_length
  check (not (all_zero raw)) owner_key_zero
  valid_owner_point raw
  ok raw

unfoldable pub build_payload : Bytes → Bytes → Result Bytes
build_payload name owner_key_hex = do
  name32 ← encode_name name
  owner ← decode_owner_key owner_key_hex
  ok (name32 ++ owner)

unfoldable pub decode_payload : Bytes → Result Payload
decode_payload raw = do
  check (length raw == payload_size) payload_length
  name ← decode_name (take name_size raw)
  owner ← decode_owner_key (Hex.encode (drop name_size raw))
  ok (record { name = name; owner_key = Hex.encode owner; payload_hex = Hex.encode raw })

-- The years, with nil or an error.
unfoldable pub years_from_amount : ℕ → ℕ × Option Error
years_from_amount amount =
    if ltb amount year_amount
    then (0, some amount_below)
    else if not (amount % year_amount == 0)
    then (0, some amount_multiple)
    else (amount / year_amount, none)
