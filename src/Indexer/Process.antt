-- ===== src/Indexer/Process.antt =====
-- The indexer's wallet process: protocolWallet and rebuildWallet of pkg/indexer/indexer.go.
pub mod Runs
pub mod Ends
pub mod Starting
use xns.Common.{
  ℕ, zero, suc, Bool, true, false, Option, none, some, List, [], ◌∷◌, ◌++◌, Bytes, codes, same,
  Error, Result, ok, err, stuck, length, ◌==◌, if◌then◌else◌, rpc_exited, rpc_not_ready,
}
use xns.Decimal.{print}
use xns.Messages.{message}
use xns.Session.{Outside, Reply, yes, no, Session, ask, tell, lift, ◌>>=◌, ◌>>◌, or_first}
use xns.Network.{Addresses, protocol_address, protocol_restore_height, protocol_view_secret}
use xns.TxSet.Signature.{Crypto}

pub record Config : Type 0 where
  pub mainnet : Bool
  pub stagenet : Bool
  pub node : Bytes
  pub listen : Bytes
  pub data_dir : Bytes

-- What `os.Stat` says of a path: nil, an error for which `os.IsNotExist` holds, or another error.
pub data FileStatus : Type 0 where
  found missing unreadable : FileStatus

-- One look at a process that starts: it has ended, or answers `get_version`, or does not.
pub data Poll : Type 0 where
  exited ready : Poll
  failed : Error → Poll

-- `remove` succeeds also where there is no such file.
pub data Call : Type 0 where
  make_dir remove file_status : Bytes → Call
  free_port : Call
  -- the log file and the arguments
  start : Bytes → List Bytes → Call
  stop wait get_address : Call
  generate_from_keys : ℕ → Bytes → Bytes → Bytes → Call

abbrev pub Answer : Call → Type 0
Answer (file_status path) = FileStatus
Answer free_port = ℕ
Answer wait = List Poll
Answer get_address = Bytes
Answer _ = Unit {0}

abbrev pub outside : Outside
outside = record { Call = Call; Answer = Answer }

abbrev pub Steps : Type 0 → Type 0
Steps A = Session outside A

-- `filepath.Join` of a directory in its shortest form.
abbrev pub join : Bytes → Bytes → Bytes
join dir name = dir ++ b'/' ∷ name

abbrev pub wallet_name : Bytes
wallet_name = codes "xns_protocol_view"

abbrev pub wallet_file_of : Config → Bytes
wallet_file_of cfg = join (join cfg.data_dir (codes "wallet")) wallet_name

abbrev pub keys_of : Bytes → Bytes
keys_of wallet_file = wallet_file ++ codes ".keys"

-- The arguments of `startWalletRPC`.
unfoldable pub wallet_args : Config → ℕ → Bytes → Bytes → Bytes → List Bytes
wallet_args cfg port log_path wallet_file wallet_dir =
    codes "--rpc-bind-ip"
      ∷ codes "127.0.0.1"
      ∷ codes "--rpc-bind-port"
      ∷ print port
      ∷ codes "--disable-rpc-login"
      ∷ codes "--non-interactive"
      ∷ codes "--no-initial-sync"
      ∷ codes "--log-file"
      ∷ log_path
      ∷ codes "--log-level"
      ∷ codes "0"
      ∷ codes "--daemon-address"
      ∷ cfg.node
      ∷ codes "--trusted-daemon"
      ∷ []
    ++ (if cfg.stagenet then codes "--stagenet" ∷ [] else [])
    ++ (if length wallet_file == 0
        then []
        else codes "--wallet-file" ∷ wallet_file ∷ codes "--password" ∷ [] ∷ [])
    ++ (if length wallet_dir == 0 then [] else codes "--wallet-dir" ∷ wallet_dir ∷ [])

-- `%w` of the last error, which may be nil.
last_text : Option Error → Bytes
last_text none = codes "%!w(<nil>)"
last_text (some e) = message e

-- The loop of `waitWallet`; the looks end at the deadline.
unfoldable pub wait_loop : Bytes → Option Error → List Poll → Result (Unit {0})
unfolding last_text
wait_loop log last [] = err (rpc_not_ready (last_text last))
wait_loop log last (Poll.exited ∷ polls) = err (rpc_exited log)
wait_loop log last (Poll.ready ∷ polls) = ok tt
wait_loop log last (Poll.failed e ∷ polls) = wait_loop log (some e) polls

unfoldable pub wait_wallet : Bytes → Steps (Unit {0})
wait_wallet log = do polls ← ask wait; lift (wait_loop log none polls)

abbrev pub status_of : Reply FileStatus → FileStatus
status_of (yes s) = s
status_of (no e) = unreadable

-- `os.Stat`, whose error is a case of its own.
unfoldable pub stat : Bytes → Steps FileStatus
stat path w past =
    let reply = w past (file_status path) in
    (ok (status_of reply), record { call = file_status path; reply = reply } ∷ past)

unfoldable pub wallet_address_matches : Bytes → Steps Bool
wallet_address_matches want = do address ← ask get_address; lift (ok (same address want))

unfoldable pub remove_files : List Bytes → Steps (Unit {0})
remove_files [] = lift (ok tt)
remove_files (path ∷ paths) = ask (remove path) >> remove_files paths

unfoldable pub remove_wallet_files : Bytes → Steps (Unit {0})
remove_wallet_files wallet_file =
    remove_files (wallet_file ∷ keys_of wallet_file ∷ (wallet_file ++ codes ".address.txt") ∷ [])

unfoldable pub remove_db_files : Bytes → Steps (Unit {0})
remove_db_files db_file =
    remove_files (db_file ∷ (db_file ++ codes "-wal") ∷ (db_file ++ codes "-shm") ∷ [])

module _ (c : Crypto) (a : Addresses) (cfg : Config) where
  -- The wallet that is open is the protocol's; where there is none, nothing is compared.
  unfoldable pub is_protocol_wallet : FileStatus → Steps Bool
  is_protocol_wallet found = do
    want ← lift (protocol_address c a cfg.stagenet)
    wallet_address_matches want
  is_protocol_wallet _ = lift (ok true)

  unfoldable pub generate : FileStatus → Steps (Unit {0})
  generate missing = do
    address ← lift (protocol_address c a cfg.stagenet)
    ask (
        generate_from_keys (protocol_restore_height cfg.stagenet) wallet_name address
          protocol_view_secret)
  generate _ = lift (ok tt)

  -- The process that opens the wallet's file, or else the directory, and logs to a file.
  unfoldable pub start_call : ℕ → FileStatus → Call
  start_call port found =
      let log = join cfg.data_dir (codes "wallet-rpc.log") in
      start log (wallet_args cfg port log (wallet_file_of cfg) [])
  start_call port _ =
      let log = join cfg.data_dir (codes "wallet-rpc.log") in
      start log (wallet_args cfg port log [] (join cfg.data_dir (codes "wallet")))

  -- What follows the comparison: another wallet is removed, and all is done again.
  unfoldable pub finish_wallet : Steps ℕ → ℕ → Bool → Steps ℕ
  finish_wallet again port false = do tell stop; remove_wallet_files (wallet_file_of cfg); again
  finish_wallet again port true = do
    status ← stat (keys_of (wallet_file_of cfg))
    or_first stop (generate status)
    lift (ok port)

  -- While the process runs.
  unfoldable pub with_process : Steps ℕ → ℕ → Steps ℕ
  with_process again port = do
    or_first stop (wait_wallet (join cfg.data_dir (codes "wallet-rpc.log.stdout")))
    status ← stat (keys_of (wallet_file_of cfg))
    matches ← or_first stop (is_protocol_wallet status)
    finish_wallet again port matches

  -- The port of the process. The fuel bounds how often the function calls itself.
  unfoldable pub protocol_wallet : ℕ → Steps ℕ
  protocol_wallet zero = lift stuck
  protocol_wallet (suc fuel) = do
    ask (make_dir (join cfg.data_dir (codes "wallet")))
    port ← ask free_port
    status ← stat (keys_of (wallet_file_of cfg))
    ask (start_call port status)
    with_process (protocol_wallet fuel) port

  unfoldable pub rebuild_wallet : ℕ → Steps ℕ
  rebuild_wallet fuel = do tell stop; remove_wallet_files (wallet_file_of cfg); protocol_wallet fuel
