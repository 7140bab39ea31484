-- ===== src/Claim/Calls.antt =====
-- What a claim asks of wallets, processes and files.
use xns.Common.{
  ℕ, Bool, List, [], ◌∷◌, ◌++◌, Option, none, some, Bytes, codes, Error, Result, ok, err, length,
  ◌==◌, if◌then◌else◌, wallet_exited, wallet_not_ready,
}
use xns.Decimal.{print}
use xns.Messages.{message}
use xns.Session.{Outside}
use xns.Claim.{Config}

-- The two wallet processes: that of the user's wallet, and that of a temporary wallet which has no
-- spend key.
pub data Wallet : Type 0 where
  full watch : Wallet

-- The offset, and the signed key images as they came.
abbrev pub KeyImages : Type 0
KeyImages = ℕ × List Bytes

-- One look at a process that starts: it has ended, or answers `get_version`, or does not.
pub data Poll : Type 0 where
  exited ready : Poll
  failed : Error → Poll

-- The parameters of a wallet's calls.
pub record TransferRequest : Type 0 where
  pub address : Bytes
  pub amount : ℕ
  pub account_index : ℕ
  pub subaddr_indices : List ℕ
  pub priority : ℕ
  pub ring_size : ℕ
  pub unlock_time : ℕ
  pub get_tx_key : Bool
  pub do_not_relay : Bool
  pub get_tx_hex : Bool
  pub get_tx_metadata : Bool

pub record SignRequest : Type 0 where
  pub unsigned_txset : Bytes
  pub export_raw : Bool
  pub get_tx_keys : Bool

pub record KeysRequest : Type 0 where
  pub restore_height : ℕ
  pub filename : Bytes
  pub address : Bytes
  pub viewkey : Bytes
  pub password : Bytes
  pub language : Bytes

pub data Call : Type 0 where
  make_temp_dir free_port : Call
  remove_all make_dir : Bytes → Call
  copy_wallet_cache : Bytes → Bytes → Call
  -- processes: the log file and the arguments
  start : Wallet → Bytes → List Bytes → Call
  stop wait : Wallet → Call
  -- calls of a wallet
  refresh get_address query_key get_height get_balance store : Wallet → Call
  -- with `enable`, and with `all`
  auto_refresh export_key_images : Wallet → Bool → Call
  import_key_images : Wallet → KeyImages → Call
  generate_from_keys : Wallet → KeysRequest → Call
  transfer : Wallet → TransferRequest → Call
  sign_transfer : Wallet → SignRequest → Call
  submit_transfer : Wallet → Bytes → Call

abbrev pub Answer : Call → Type 0
Answer make_temp_dir = Bytes
Answer free_port = ℕ
Answer (wait w) = List Poll
Answer (get_address w) = Bytes
Answer (query_key w) = Bytes
Answer (get_height w) = ℕ
Answer (get_balance w) = ℕ × ℕ
Answer (export_key_images w all) = KeyImages
Answer (transfer w request) = Bytes
Answer (sign_transfer w request) = Bytes × List Bytes
Answer _ = Unit {0}

abbrev pub outside : Outside
outside = record { Call = Call; Answer = Answer }

-- `filepath.Join` of a directory in its shortest form.
abbrev pub join : Bytes → Bytes → Bytes
join dir name = dir ++ b'/' ∷ name

-- The arguments of `startWalletRPC`.
unfoldable pub wallet_args : Config → ℕ → Bytes → Bytes → Bytes → Bytes → List Bytes
wallet_args cfg port log_path wallet_file wallet_dir password =
    codes "--rpc-bind-ip"
      ∷ codes "127.0.0.1"
      ∷ codes "--rpc-bind-port"
      ∷ print port
      ∷ codes "--disable-rpc-login"
      ∷ codes "--non-interactive"
      ∷ codes "--no-initial-sync"
      ∷ codes "--log-file"
      ∷ log_path
      ∷ codes "--log-level"
      ∷ codes "0"
      ∷ codes "--daemon-address"
      ∷ cfg.node
      ∷ codes "--trusted-daemon"
      ∷ []
    ++ (if cfg.stagenet then codes "--stagenet" ∷ [] else [])
    ++ (if length wallet_file == 0
        then []
        else codes "--wallet-file" ∷ wallet_file ∷ codes "--password" ∷ password ∷ [])
    ++ (if length wallet_dir == 0 then [] else codes "--wallet-dir" ∷ wallet_dir ∷ [])

-- `%w` of the last error, which may be nil.
last_text : Option Error → Bytes
last_text none = codes "%!w(<nil>)"
last_text (some e) = message e

-- The loop of `waitWallet`; the looks end at the deadline.
unfoldable pub wait_loop : Bytes → Bytes → Option Error → List Poll → Result (Unit {0})
unfolding last_text
wait_loop label log last [] = err (wallet_not_ready label (last_text last))
wait_loop label log last (Poll.exited ∷ polls) = err (wallet_exited label log)
wait_loop label log last (Poll.ready ∷ polls) = ok tt
wait_loop label log last (Poll.failed e ∷ polls) = wait_loop label log (some e) polls
