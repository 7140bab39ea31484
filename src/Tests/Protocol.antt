-- ===== src/Tests/Protocol.antt =====
-- Runs of pkg/xns/protocol.go.
use xns.Common.{
  ◌≡◌, ◌↔◌, refl, ok, err, [], ◌∷◌, map, length, index, name_length, name_start, arith,
}
use xns.Hex
use xns.Hex.RoundTrip.{to_lower}
use xns.Protocol.{
  Payload, is_name_char, valid_name, encode_name, decode_name, build_payload, decode_payload,
  payload_size,
}
use xns.Protocol.Names.{IsName, valid_name_iff}
use xns.Protocol.Payloads.{decode_payload-build_payload, build_payload-decode_payload}
use xns.Tests.Data.{name, name_field, key, payload_bytes, build_payload_run}

valid_name_empty : valid_name [] ≡ err name_length
unfolding valid_name is_name_char index
valid_name_empty = refl

valid_name_dash : valid_name (b'-' ∷ b'a' ∷ []) ≡ err name_start
unfolding valid_name is_name_char index
valid_name_dash = refl

valid_name_iff_example : (valid_name name ≡ ok tt) ↔ IsName name
valid_name_iff_example = valid_name_iff name

encode_name_run : encode_name name ≡ ok name_field
unfolding encode_name valid_name is_name_char index
encode_name_run = refl

decode_name_run : decode_name name_field ≡ ok name
unfolding decode_name valid_name is_name_char index
decode_name_run = refl

abbrev payload : Payload
payload = record {
  name = name;
  owner_key = map to_lower (Hex.encode key);
  payload_hex = Hex.encode payload_bytes;
}

decode_payload-build_payload_example :
    (length payload_bytes ≡ payload_size) × (decode_payload payload_bytes ≡ ok payload)
decode_payload-build_payload_example =
    decode_payload-build_payload name (Hex.encode key) payload_bytes build_payload_run

decode_payload_run : decode_payload payload_bytes ≡ ok payload
decode_payload_run =
    (decode_payload-build_payload name (Hex.encode key) payload_bytes build_payload_run).1

build_payload-decode_payload_example :
    (build_payload name payload.owner_key ≡ ok payload_bytes) × IsName name
build_payload-decode_payload_example =
    build_payload-decode_payload payload_bytes payload (omega arith) decode_payload_run
