-- ===== src/Claim/Payment.antt =====
-- What a claim pays is worth the years that it was asked for.
use xns.Common.{
  ◌*◌, ◌≤◌, ◌≡◌, none, Bytes, ok, check, >>=-eq-ok, check→true, ◌&&◌, ◌||◌, not, length, ◌==◌, map,
  arith,
}
use xns.Hex
use xns.Hex.RoundTrip.{to_lower}
use xns.Protocol.{decode_payload, years_from_amount, year_amount}
use xns.Protocol.Payloads.{decode_payload-build_payload}
use xns.Protocol.Amounts.{years_from_amount_iff}
use xns.Claim.{Config, prepare, payment}

-- A claim that Run lets through has a payload that is decoded to its name and its owner key in lower
-- case, and, for at most 1844674407 years, its payment is read by YearsFromAmount as these years.
pub prepare-payment :
    (cfg : Config) (payload : Bytes)
    → prepare cfg ≡ ok payload
    → cfg.years ≤ 1844674407
    → (decode_payload payload
        ≡ ok (record {
          name = cfg.name;
          owner_key = map to_lower cfg.owner;
          payload_hex = Hex.encode payload;
        }))
      × (years_from_amount (payment cfg) ≡ (cfg.years, none))
unfolding prepare payment
prepare-payment cfg payload h bound =
    let (_, _, h1) =
      >>=-eq-ok (check (not (cfg.mainnet && cfg.stagenet || not cfg.mainnet && not cfg.stagenet)) _)
        _ h in
    let (_, _, h2) = >>=-eq-ok (check (not (length cfg.wallet_file == 0)) _) _ h1 in
    let (_, _, h3) = >>=-eq-ok (check cfg.wallet_password_set _) _ h2 in
    let (_, some_years, h4) = >>=-eq-ok (check (not (cfg.years == 0)) _) _ h3 in
    let (_, _, built) = >>=-eq-ok (check (not (length cfg.node == 0)) _) _ h4 in
    let positive = check→true (not (cfg.years == 0)) _ some_years in
    let (_, decoded) = decode_payload-build_payload cfg.name cfg.owner payload built in
    let whole : payment cfg ≡ cfg.years * year_amount = omega arith in
    (decoded, (years_from_amount_iff (payment cfg) cfg.years).1 (ground arith, whole))
