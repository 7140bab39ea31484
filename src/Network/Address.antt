-- ===== src/Network/Address.antt =====
-- The protocol's view secret is a canonical scalar, so its addresses exist.
use xns.Common.{
  [], ◌∷◌, ltb→lt, ◌<◌, ◌≡◌, refl, Bool, true, false, Bytes, codes, ok, length, ltb, if◌then◌else◌,
}
use xns.Hex
use xns.Edwards.{from_le, ed_l}
use xns.TxSet.Signature.{Crypto}
use xns.Network.{
  Addresses, protocol_view_secret, protocol_view_public_key, derive_protocol_address,
  protocol_address, public_key_bytes, protocol_spend_public_key_input,
}

abbrev pub view_secret : Bytes
view_secret =
    0x93 ∷ 0x58 ∷ 0x30 ∷ 0xfc ∷ 0x11 ∷ 0x25 ∷ 0x0e ∷ 0x25 ∷ 0x15 ∷ 0x31 ∷ 0x60 ∷ 0x95 ∷ 0x1c ∷ 0x1b
    ∷ 0xa9 ∷ 0x15 ∷ 0x2e ∷ 0x5f ∷ 0xee ∷ 0x00 ∷ 0x76 ∷ 0x38 ∷ 0x90 ∷ 0x31 ∷ 0x4b ∷ 0x67 ∷ 0x53
    ∷ 0x2a ∷ 0xe6 ∷ 0x38 ∷ 0x56 ∷ 0x07 ∷ []

view_secret_decoded : Hex.decode protocol_view_secret ≡ ok view_secret
unfolding Hex.decode codes
view_secret_decoded = refl

view_secret_canonical : ltb (from_le view_secret) ed_l ≡ true
unfolding from_le
view_secret_canonical = refl

pub protocol_address_lem :
    (c : Crypto) (a : Addresses) (stagenet : Bool)
    → ((raw : Bytes)
        → length raw ≡ 32
        → from_le raw < ed_l
        → (s : c.Scalar) × (c.set_canonical raw ≡ ok s))
    → (s : c.Scalar) × (c.set_canonical view_secret ≡ ok s)
      × (protocol_address c a stagenet
          ≡ ok (
              a.from_raw
                (if stagenet then 24 else 18)
                (public_key_bytes (a.biased_hash_to_point protocol_spend_public_key_input))
                (public_key_bytes (c.scalar_base_mult s))))
unfolding protocol_address derive_protocol_address protocol_view_public_key
protocol_address_lem c a stagenet canonical =
    let (s, is_scalar) = canonical view_secret refl (ltb→lt _ _ view_secret_canonical) in
    (s, is_scalar, go stagenet s is_scalar)
  where
    go :
        (net : Bool) (s : c.Scalar)
        → c.set_canonical view_secret ≡ ok s
        → protocol_address c a net
          ≡ ok (
              a.from_raw
                (if net then 24 else 18)
                (public_key_bytes (a.biased_hash_to_point protocol_spend_public_key_input))
                (public_key_bytes (c.scalar_base_mult s)))
    go true s e = rw (view_secret_decoded, e) refl
    go false s e = rw (view_secret_decoded, e) refl
