-- ===== src/Claim/Run.antt =====
-- `run` of pkg/claim/claim.go: the calls of a claim, in their order.
use xns.Common.{
  ℕ, Bool, true, false, List, [], ◌++◌, none, Bytes, codes, same, Result, ok, check, length, ◌==◌,
  ◌&&◌, not, view_key_size, watch_address, watch_state, no_unsigned_tx_set,
}
use xns.Session.{Session, ask, tell, lift, ◌>>=◌, ◌>>◌, deferred, or_first}
use xns.Network.{Addresses, protocol_address, network_name}
use xns.TxSet.Signature.{Crypto}
use xns.TxSet.Seal.{patch_unsigned_hex}
use xns.Claim.{Config, payment}
use xns.Claim.Calls.{
  Wallet, full, watch, KeyImages, TransferRequest, SignRequest, KeysRequest, make_temp_dir,
  free_port, remove_all, make_dir, copy_wallet_cache, start, stop, wait, auto_refresh, refresh,
  get_address, query_key, get_height, get_balance, store, export_key_images, import_key_images,
  generate_from_keys, transfer, sign_transfer, submit_transfer, outside, join, wallet_args,
  wait_loop,
}

pub record ClaimResult : Type 0 where
  pub network : Bytes
  pub name : Bytes
  pub owner : Bytes
  pub years : ℕ
  pub amount_atomic : ℕ
  pub tx_hash_list : List Bytes

pub record WalletState : Type 0 where
  pub height : ℕ
  pub balance : ℕ
  pub unlocked_balance : ℕ

abbrev pub Steps : Type 0 → Type 0
Steps A = Session outside A

abbrev pub same_state : WalletState → WalletState → Bool
same_state s t =
    s.height == t.height && s.balance == t.balance && s.unlocked_balance == t.unlocked_balance

unfoldable pub wait_wallet : Wallet → Bytes → Bytes → Steps (Unit {0})
wait_wallet w label log = do polls ← ask (wait w); lift (wait_loop label log none polls)

-- The address and the view key.
unfoldable pub sender : Wallet → Steps (Bytes × Bytes)
sender w = do
  address ← ask (get_address w)
  key ← ask (query_key w)
  lift (check (length key == 64) view_key_size)
  lift (ok (address, key))

unfoldable pub read_wallet_state : Wallet → Steps WalletState
read_wallet_state w = do
  height ← ask (get_height w)
  (balance, unlocked) ← ask (get_balance w)
  lift (ok (record { height = height; balance = balance; unlocked_balance = unlocked }))

-- The user's wallet, brought up to date: its address, view key, state and key images.
unfoldable pub open_full : Bytes → Steps (Bytes × Bytes × WalletState × KeyImages)
open_full log = do
  wait_wallet full (codes "full") log
  ask (auto_refresh full false)
  ask (refresh full)
  (address, view_secret) ← sender full
  state ← read_wallet_state full
  key_images ← ask (export_key_images full true)
  ask (store full)
  lift (ok (address, view_secret, state, key_images))

abbrev pub watch_keys : Config → Bytes → Bytes → ℕ → KeysRequest
watch_keys cfg address view_secret height = record {
  restore_height = height;
  filename = codes "sender_watch";
  address = address;
  viewkey = view_secret;
  password = cfg.wallet_password;
  language = codes "English";
}

-- The temporary wallet's files are made by a process of its own, which is stopped on every error.
unfoldable pub make_watch : Config → Bytes → Bytes → Bytes → ℕ → Steps (Unit {0})
make_watch cfg log address view_secret height = do
  or_first (stop watch) (wait_wallet watch (codes "watch") (log ++ codes ".stdout"))
  or_first (stop watch) (ask (generate_from_keys watch (watch_keys cfg address view_secret height)))
  or_first (stop watch) (ask (store watch))

-- The temporary wallet has the address and the state of the user's.
unfoldable pub check_watch : Bytes → Bytes → WalletState → KeyImages → Steps (Unit {0})
check_watch log address full_state key_images = do
  wait_wallet watch (codes "watch") (log ++ codes ".stdout")
  ask (auto_refresh watch false)
  (watch_at, _) ← sender watch
  lift (check (same watch_at address) watch_address)
  ask (import_key_images watch key_images)
  state ← read_wallet_state watch
  lift (
      check (same_state state full_state) (
        watch_state full_state.height full_state.balance full_state.unlocked_balance state.height
          state.balance state.unlocked_balance))

-- `to` is paid; the wallet does not relay the transaction.
abbrev pub payment_to : Bytes → ℕ → TransferRequest
payment_to to amount = record {
  address = to;
  amount = amount;
  account_index = 0;
  subaddr_indices = [];
  priority = 2;
  ring_size = 0;
  unlock_time = 0;
  get_tx_key = false;
  do_not_relay = true;
  get_tx_hex = false;
  get_tx_metadata = false;
}

abbrev pub signing_of : Bytes → SignRequest
signing_of set = record { unsigned_txset = set; export_raw = true; get_tx_keys = false }

-- The transaction is made by the temporary wallet, patched, signed by the user's, and sent.
unfoldable pub pay :
    Crypto → Addresses → List (Result Bytes) → Config → Bytes → Bytes → Steps ClaimResult
pay c a draws cfg payload view_secret = do
  to ← lift (protocol_address c a cfg.stagenet)
  unsigned ← ask (transfer watch (payment_to to (payment cfg)))
  lift (check (not (length unsigned == 0)) no_unsigned_tx_set)
  (patched, _) ← lift (patch_unsigned_hex c draws unsigned view_secret payload)
  (signed, hashes) ← ask (sign_transfer full (signing_of patched))
  ask (submit_transfer full signed)
  lift (
      ok (record {
        network = network_name cfg.stagenet;
        name = cfg.name;
        owner = cfg.owner;
        years = cfg.years;
        amount_atomic = payment cfg;
        tx_hash_list = hashes;
      }))

-- Between the start of the user's wallet and its deferred stop.
unfoldable pub with_full :
    Crypto → Addresses → List (Result Bytes) → Config → Bytes → Bytes → ℕ → Steps ClaimResult
with_full c a draws cfg payload dir port = do
  (address, view_secret, full_state, key_images) ←
      open_full (join dir (codes "full-wallet-rpc.log.stdout"))
  let watch_dir = join dir (codes "watch")
  ask (make_dir watch_dir)
  let log = join dir (codes "watch-wallet-rpc.log")
  ask (start watch log (wallet_args cfg port log [] watch_dir []))
      >> (make_watch cfg log address view_secret full_state.height >> tell (stop watch))
  let watch_file = join watch_dir (codes "sender_watch")
  ask (copy_wallet_cache cfg.wallet_file watch_file)
  ask (start watch log (wallet_args cfg port log watch_file [] cfg.wallet_password))
      >> deferred (stop watch)
          (check_watch log address full_state key_images >> pay c a draws cfg payload view_secret)

unfoldable pub with_dir :
    Crypto → Addresses → List (Result Bytes) → Config → Bytes → Bytes → Steps ClaimResult
with_dir c a draws cfg payload dir = do
  full_port ← ask free_port
  watch_port ← ask free_port
  let log = join dir (codes "full-wallet-rpc.log")
  ask (start full log (wallet_args cfg full_port log cfg.wallet_file [] cfg.wallet_password))
      >> deferred (stop full) (with_full c a draws cfg payload dir watch_port)

unfoldable pub run : Crypto → Addresses → List (Result Bytes) → Config → Bytes → Steps ClaimResult
run c a draws cfg payload = do
  dir ← ask make_temp_dir
  deferred (remove_all dir) (with_dir c a draws cfg payload dir)
