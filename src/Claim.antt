-- ===== src/Claim.antt =====
-- pkg/claim/claim.go: what a claim checks before it starts a wallet, and what it pays.
pub mod Payment
pub mod Calls
pub mod Cache
pub mod Run
pub mod Processes
pub mod Balance
pub mod Sending
use xns.Common.{
  ℕ, ◌*◌, ◌%◌, ◌^◌, Bool, not, ◌&&◌, ◌||◌, Bytes, Result, ◌>>=◌, ◌>>◌, check, length, ◌==◌,
  network_choice, claim_wallet, claim_password, claim_years, node_required,
}
use xns.Protocol.{build_payload, year_amount}

pub record Config : Type 0 where
  pub mainnet : Bool
  pub stagenet : Bool
  pub wallet_file : Bytes
  pub wallet_password : Bytes
  pub wallet_password_set : Bool
  pub name : Bytes
  pub owner : Bytes
  pub node : Bytes
  pub years : ℕ

-- `Run` up to its call of `run`, with the payload that it hands over.
unfoldable pub prepare : Config → Result Bytes
prepare cfg = do
  check (not (cfg.mainnet && cfg.stagenet || not cfg.mainnet && not cfg.stagenet)) network_choice
  check (not (length cfg.wallet_file == 0)) claim_wallet
  check cfg.wallet_password_set claim_password
  check (not (cfg.years == 0)) claim_years
  check (not (length cfg.node == 0)) node_required
  build_payload cfg.name cfg.owner

-- `cfg.Years * xns.YearAmount` in a uint64.
unfoldable pub payment : Config → ℕ
payment cfg = cfg.years * year_amount % 2 ^ 64
