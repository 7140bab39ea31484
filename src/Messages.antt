-- ===== src/Messages.antt =====
-- The text of each error, as `Error()` gives it.
use xns.Common.{
  ℕ, ◌+◌, ◌/◌, ◌%◌, ◌&&◌, ◌||◌, not, [], ◌∷◌, ◌++◌, Bytes, codes, Error, ltb, leb, ◌==◌,
  if◌then◌else◌, name_length, name_charset, name_start, name_end, name_field_size, name_padding,
  payload_length, owner_key_length, owner_key_zero, amount_below, amount_multiple, hex_invalid_byte,
  hex_odd_length, point_size, point_y, point_off_curve, point_sign, point_identity, point_subgroup,
  nonce_length, nonce_data, extra_overrun, varint_large, varint_truncated, unsupported_tag,
  extra_byte_range, not_unsigned_tx_set, tx_set_short, chacha_nonce_size, tx_set_payload,
  extra_not_found, extra_no_pub_key, extra_too_long, secret_size, hash_size, scalar_size,
  scalar_overflow, extra_ambiguous, invalid_secret, network_choice, claim_wallet, claim_password,
  claim_years, node_required, view_key_size, watch_address, no_unsigned_tx_set, watch_state,
  wallet_exited, wallet_not_ready, cache_not_regular, cache_step, view_secret_size, number_syntax,
  number_range, empty_block_hash, height_status, block_status, rpc_error, http_status,
  decode_response, listen_required, data_dir_required, rpc_exited, rpc_not_ready, event_row,
  indexer_required, one_name, flag_required, no_anchor, chain_changed, wallet_height,
  transfer_height, transfer_not_in_block, transaction_status, transaction_count,
  transaction_mismatch, foreign,
}
use xns.Common.Int.{ℤ, pos, negsuc}
use xns.Decimal.{print}

-- A hexadecimal digit in upper case.
upper_digit : ℕ → ℕ
upper_digit n = if ltb n 10 then n + b'0' else n + 55

-- A hexadecimal digit in lower case.
lower_digit : ℕ → ℕ
lower_digit n = if ltb n 10 then n + b'0' else n + 87

-- `%#U` of a number below 256: its code point, and the character where that can be printed.
code_point : ℕ → Bytes
unfolding upper_digit
code_point b =
    let character = if ltb b 128 then b ∷ [] else (b / 64 + 192) ∷ (b % 64 + 128) ∷ [] in
    let digits = codes "U+00" ++ upper_digit (b / 16) ∷ upper_digit (b % 16) ∷ [] in
    if leb 0x20 b && leb b 0x7e || leb 0xa1 b && not (b == 0xad)
    then digits ++ codes " '" ++ character ++ codes "'"
    else digits

-- One byte of a text in `%q`, in ASCII.
quoted : ℕ → Bytes
unfolding lower_digit
quoted c =
    if c == b'"' || c == b'\\'
    then b'\\' ∷ c ∷ []
    else if leb 0x20 c && not (c == 0x7f)
    then c ∷ []
    else if c == 7
    then codes "\\a"
    else if c == 8
    then codes "\\b"
    else if c == 9
    then codes "\\t"
    else if c == 10
    then codes "\\n"
    else if c == 11
    then codes "\\v"
    else if c == 12
    then codes "\\f"
    else if c == 13
    then codes "\\r"
    else codes "\\x" ++ lower_digit (c / 16) ∷ lower_digit (c % 16) ∷ []

quote_all : Bytes → Bytes
unfolding quoted
quote_all [] = []
quote_all (c ∷ cs) = quoted c ++ quote_all cs

-- `%q`
quote : Bytes → Bytes
unfolding quote_all
quote cs = b'"' ∷ (quote_all cs ++ b'"' ∷ [])

-- `%d` of an int.
print_int : ℤ → Bytes
print_int (pos n) = print n
print_int (negsuc n) = b'-' ∷ print (n + 1)

unfoldable pub message : Error → Bytes
unfolding code_point quote print_int
message name_length = codes "name must be 1..32 bytes"
message name_charset = codes "name may only contain lowercase a-z, 0-9, and -"
message name_start = codes "name must start with a lowercase letter or digit"
message name_end = codes "name must end with a lowercase letter or digit"
message name_field_size = codes "name field must be 32 bytes"
message name_padding = codes "name padding contains non-zero bytes"
message payload_length = codes "payload must be 64 bytes"
message owner_key_length = codes "owner key must be 32 bytes"
message owner_key_zero = codes "owner key must not be all zero"
message amount_below = codes "amount is below 0.01 XMR"
message amount_multiple = codes "amount is not a whole multiple of 0.01 XMR"
message (hex_invalid_byte b) = codes "encoding/hex: invalid byte: " ++ code_point b
message hex_odd_length = codes "encoding/hex: odd length hex string"
message point_size = codes "encoded point must be 32 bytes"
message point_y = codes "encoded point has non-canonical y coordinate"
message point_off_curve = codes "encoded point is not on the Ed25519 curve"
message point_sign = codes "encoded point has invalid sign bit for x = 0"
message point_identity = codes "owner key must not be identity"
message point_subgroup = codes "owner key must be in the Ed25519 prime-order subgroup"
message nonce_length = codes "truncated nonce length"
message nonce_data = codes "truncated nonce data"
message extra_overrun = codes "tx_extra field overruns extra length"
message varint_large = codes "varint too large"
message varint_truncated = codes "truncated varint"
message (unsupported_tag tag) = codes "unsupported tx_extra tag " ++ print tag
message (extra_byte_range i) = codes "extra byte out of range at " ++ print i
message not_unsigned_tx_set = codes "input does not look like a Monero unsigned tx set"
message tx_set_short = codes "encrypted unsigned tx set is too short"
message chacha_nonce_size = codes "chacha nonce must be 8 bytes"
message tx_set_payload = codes "payload must be 64 bytes"
message extra_not_found = codes "could not find expected default tx_extra"
message (extra_ambiguous n) =
    codes "found " ++ print n ++ codes " possible tx_extra fields; refusing"
message extra_no_pub_key = codes "matched extra does not start with a tx public key tag"
message extra_too_long = codes "only one-byte binary archive lengths are supported"
message secret_size = codes "secret key must be 32 bytes"
message (invalid_secret text) = codes "invalid secret key scalar: " ++ text
message hash_size = codes "message hash must be 32 bytes"
message scalar_size = codes "scalar must be 32 bytes"
message scalar_overflow = codes "scalar overflow"
message network_choice = codes "specify exactly one of mainnet or stagenet"
message claim_wallet = codes "wallet file is required"
message claim_password = codes "wallet password must be specified"
message claim_years = codes "years must be at least 1"
message node_required = codes "node is required"
message view_key_size = codes "wallet returned invalid view key"
message watch_address = codes "temporary watch wallet address does not match full wallet"
message no_unsigned_tx_set = codes "wallet did not return unsigned_txset"
message (watch_state fh fb fu wh wb wu) =
    codes "temporary watch wallet state does not match full wallet: full height="
    ++ print fh
    ++ codes " balance="
    ++ print fb
    ++ codes " unlocked="
    ++ print fu
    ++ codes ", watch height="
    ++ print wh
    ++ codes " balance="
    ++ print wb
    ++ codes " unlocked="
    ++ print wu
message cache_not_regular = codes "full wallet cache is not a regular file"
message (cache_step step text) = step ++ codes ": " ++ text
message (wallet_exited label path) = label ++ codes " wallet-rpc exited early; see " ++ path
message (wallet_not_ready label text) = label ++ codes " wallet-rpc did not become ready: " ++ text
message (number_syntax text) =
    codes "strconv.ParseUint: parsing " ++ quote text ++ codes ": invalid syntax"
message (number_range text) =
    codes "strconv.ParseUint: parsing " ++ quote text ++ codes ": value out of range"
message view_secret_size = codes "protocol view secret must be 32 bytes"
message (empty_block_hash h) = codes "daemon returned empty block hash at height " ++ print h
message (height_status s) = codes "daemon get_height status " ++ quote s
message (block_status s) = codes "daemon block status " ++ quote s
message (rpc_error code text) = codes "rpc error " ++ print_int code ++ codes ": " ++ text
message (http_status status body) = status ++ codes ": " ++ body
message (decode_response e body) = codes "decode rpc response: " ++ e ++ codes ": " ++ body
message listen_required = codes "listen address is required"
message data_dir_required = codes "data directory is required"
message (rpc_exited path) = codes "wallet-rpc exited early; see " ++ path
message (rpc_not_ready text) = codes "wallet-rpc did not become ready: " ++ text
message (event_row txid e) = codes "event " ++ txid ++ codes ": " ++ e
message indexer_required = codes "indexer is required"
message one_name = codes "lookup needs exactly one name"
message (flag_required name) = codes "--" ++ name ++ codes " is required"
message no_anchor = codes "stored state has no durable block anchor"
message chain_changed = codes "chain changed during scan"
message (wallet_height w d) =
    codes "wallet height " ++ print w ++ codes " is inconsistent with daemon height " ++ print d
message (transfer_height txid h w) =
    codes "transfer "
    ++ txid
    ++ codes " has invalid height "
    ++ print h
    ++ codes " at wallet height "
    ++ print w
message (transfer_not_in_block txid h) =
    codes "transfer " ++ txid ++ codes " is not in canonical block " ++ print h
message (transaction_status status txid) =
    codes "daemon returned " ++ status ++ codes " for transaction " ++ txid
message (transaction_count n txid) =
    codes "daemon returned " ++ print n ++ codes " transactions for " ++ txid
message (transaction_mismatch txid) =
    codes "transaction " ++ txid ++ codes " does not match canonical wallet transfer"
message (foreign text) = text
