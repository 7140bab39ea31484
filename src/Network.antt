-- ===== src/Network.antt =====
-- pkg/xns/network.go and pkg/xns/address.go: the networks, and the address that claims pay to.
pub mod Address
use xns.Common.{
  ℕ, ◌%◌, Bool, true, false, Bytes, codes, Result, ok, err, panic, stuck, ◌>>=◌, ◌>>◌, check,
  length, ◌==◌, if◌then◌else◌, copy_into, view_secret_size,
}
use xns.Hex
use xns.TxSet.Signature.{Crypto}

abbrev pub mainnet_address_prefix : ℕ
mainnet_address_prefix = 18

abbrev pub stagenet_address_prefix : ℕ
stagenet_address_prefix = 24

abbrev pub testnet_address_prefix : ℕ
testnet_address_prefix = 53

abbrev pub protocol_view_secret : Bytes
protocol_view_secret = codes "935830fc11250e25153160951c1ba9152e5fee00763890314b67532ae6385607"

abbrev pub protocol_spend_public_key_input : Bytes
protocol_spend_public_key_input = codes "XNS"

abbrev pub mainnet_protocol_restore_height : ℕ
mainnet_protocol_restore_height = 3690551

abbrev pub stagenet_protocol_restore_height : ℕ
stagenet_protocol_restore_height = 2135563

abbrev pub testnet_protocol_restore_height : ℕ
testnet_protocol_restore_height = 3018160

-- The Monero library's hash to a point, and its address of a network, a spend and a view key.
pub record Addresses : Type 0 where
  pub biased_hash_to_point : Bytes → Bytes
  pub from_raw : ℕ → Bytes → Bytes → Bytes

-- An array of 32 bytes.
abbrev pub public_key_bytes : Bytes → Bytes
public_key_bytes raw = copy_into 32 0 raw

abbrev pub protocol_spend_public_key : Addresses → Result Bytes
protocol_spend_public_key a = ok (a.biased_hash_to_point protocol_spend_public_key_input)

unfoldable pub protocol_view_public_key : Crypto → Result Bytes
protocol_view_public_key c = do
  raw ← Hex.decode protocol_view_secret
  check (length raw == 32) view_secret_size
  scalar ← c.set_canonical raw
  ok (c.scalar_base_mult scalar)

unfoldable pub derive_protocol_address : Crypto → Addresses → ℕ → Result Bytes
derive_protocol_address c a prefix = do
  spend ← protocol_spend_public_key a
  view ← protocol_view_public_key c
  ok (a.from_raw (prefix % 256) (public_key_bytes spend) (public_key_bytes view))

-- `if err != nil { panic(err) }`
must : Result Bytes → Result Bytes
must (ok text) = ok text
must (err e) = panic
must panic = panic
must stuck = stuck

unfoldable pub protocol_address : Crypto → Addresses → Bool → Result Bytes
unfolding must
protocol_address c a stagenet = must (
    derive_protocol_address c a
      (if stagenet then stagenet_address_prefix else mainnet_address_prefix))

unfoldable pub testnet_protocol_address : Crypto → Addresses → Result Bytes
unfolding must
testnet_protocol_address c a = must (derive_protocol_address c a testnet_address_prefix)

unfoldable pub protocol_restore_height : Bool → ℕ
protocol_restore_height stagenet =
    if stagenet then stagenet_protocol_restore_height else mainnet_protocol_restore_height

unfoldable pub network_name : Bool → Bytes
network_name stagenet = if stagenet then codes "stagenet" else codes "mainnet"
