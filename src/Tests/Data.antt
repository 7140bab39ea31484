-- ===== src/Tests/Data.antt =====
-- The data that the runs share.
use xns.Common.{◌≡◌, refl, ok, Bytes, index, arith, [], ◌∷◌, ◌++◌, copy_into, replicate}
use xns.Hex
use xns.Hex.RoundTrip.{decode-encode}
use xns.Edwards.{valid_owner_point, inv, mod_inverse, inverse_loop, add, sub, mul, from_le}
use xns.Protocol.{build_payload, decode_owner_key, all_zero, encode_name, valid_name, is_name_char}

-- The encoding of the curve's base point.
abbrev pub key : Bytes
key = 0x58 ∷ replicate 31 0x66

abbrev pub name : Bytes
name = b'a' ∷ b'-' ∷ b'1' ∷ []

abbrev pub name_field : Bytes
name_field = copy_into 32 0 name

abbrev pub payload_bytes : Bytes
payload_bytes = name_field ++ key

pub key_point : valid_owner_point key ≡ ok tt
unfolding valid_owner_point inv mod_inverse inverse_loop add sub mul from_le index
key_point = refl

key_decoded : decode_owner_key (Hex.encode key) ≡ ok key
unfolding decode_owner_key all_zero
key_decoded = rw (decode-encode key (omega arith), key_point)

pub build_payload_run : build_payload name (Hex.encode key) ≡ ok payload_bytes
unfolding build_payload encode_name valid_name is_name_char index
build_payload_run = rw key_decoded
