-- ===== src/Protocol/Ending.antt =====
-- Decoding a payload comes to an end.
use xns.Common.{Bytes, HasEnded, HasEnded-bind, HasEnded-ok, HasEnded-check, HasEnded-index}
use xns.Hex.Ending.{decode-HasEnded}
use xns.Edwards.Ending.{valid_owner_point-HasEnded}
use xns.Protocol.{valid_name, decode_name, decode_owner_key, decode_payload}

HasEnded-valid_name : (name : Bytes) → HasEnded (valid_name name)
unfolding valid_name
HasEnded-valid_name name = search (HasEnded-bind, HasEnded-check, HasEnded-index) depth 16

HasEnded-decode_name : (raw : Bytes) → HasEnded (decode_name raw)
unfolding decode_name
HasEnded-decode_name raw =
    search (HasEnded-bind, HasEnded-check, HasEnded-ok, HasEnded-valid_name) depth 16

HasEnded-decode_owner_key : (text : Bytes) → HasEnded (decode_owner_key text)
unfolding decode_owner_key
HasEnded-decode_owner_key text =
    search (HasEnded-bind, HasEnded-check, HasEnded-ok, decode-HasEnded, valid_owner_point-HasEnded)
      depth 16

pub decode_payload-HasEnded : (raw : Bytes) → HasEnded (decode_payload raw)
unfolding decode_payload
decode_payload-HasEnded raw =
    search
      (HasEnded-bind, HasEnded-check, HasEnded-ok, HasEnded-decode_name, HasEnded-decode_owner_key)
      depth 16
