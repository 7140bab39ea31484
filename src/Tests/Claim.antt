-- ===== src/Tests/Claim.antt =====
-- Runs of pkg/claim/claim.go.
use xns.Common.{[], ◌≡◌, refl, true, false, none, codes, ok, map, arith}
use xns.Hex
use xns.Hex.RoundTrip.{to_lower}
use xns.Protocol.{decode_payload, years_from_amount}
use xns.Claim.{Config, prepare, payment}
use xns.Claim.Payment.{prepare-payment}
use xns.Tests.Data.{name, key, payload_bytes, build_payload_run}

abbrev pub config : Config
config = record {
  mainnet = true;
  stagenet = false;
  wallet_file = codes "wallet";
  wallet_password = [];
  wallet_password_set = true;
  name = name;
  owner = Hex.encode key;
  node = codes "node";
  years = 3;
}

prepare_run : prepare config ≡ ok payload_bytes
unfolding prepare codes
prepare_run = build_payload_run

-- Two thousand million years wrap.
wrap_run : payment (record config { years = 2000000000 }) ≡ 1553255926290448384
unfolding payment
wrap_run = refl

prepare-payment_example :
    (decode_payload payload_bytes
      ≡ ok (record {
        name = name;
        owner_key = map to_lower (Hex.encode key);
        payload_hex = Hex.encode payload_bytes;
      }))
    × (years_from_amount (payment config) ≡ (3, none))
prepare-payment_example = prepare-payment config payload_bytes prepare_run (omega arith)
