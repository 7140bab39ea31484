-- ===== src/Protocol/Owners.antt =====
-- What the owner keys of payloads are.
use xns.Common.{◌≡◌, ◌≢◌, ap, ◌∙◌, Bytes, ok}
use xns.Hex
use xns.Edwards.{Point, identity, scalar_mult, ed_l}
use xns.Edwards.Curve.{IsPoint}
use xns.Edwards.Decoding.{encode_point, valid_owner_point-IsPoint}
use xns.Protocol.{Payload, decode_payload}
use xns.Protocol.Payloads.{decode_payload_lem, decode_owner_key_lem}

-- The text is the hexadecimal form of the standard encoding of a point of the curve, other than the
-- identity, whose multiple by the group's order is the identity.
pub record IsOwner (text : Bytes) : Type 0 where
  pub point : Point
  pub on_curve : IsPoint point
  pub not_identity : point ≢ identity
  pub in_subgroup : scalar_mult point ed_l ≡ ok identity
  pub spelled : Hex.encode (encode_point point) ≡ text

pub IsOwner-decode_payload :
    (raw : Bytes) (p : Payload) → decode_payload raw ≡ ok p → IsOwner p.owner_key
IsOwner-decode_payload raw p h =
    let (_, _, (owner, ho, eo), _) = decode_payload_lem raw p h in
    let (_, key) = decode_owner_key_lem _ owner ho in
    let (q, _, on, other, order, encoded) = valid_owner_point-IsPoint owner key.bytes key.valid in
    record {
      point = q;
      on_curve = on;
      not_identity = other;
      in_subgroup = order;
      spelled = ap Hex.encode encoded ∙ eo;
    }
