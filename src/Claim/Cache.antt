-- ===== src/Claim/Cache.antt =====
-- The file work of pkg/claim/claim.go: `startWalletRPC`, and `copyWalletCache`, which copies the
-- cache of the user's wallet to the temporary one.
pub mod Copied
use xns.Common.{
  ℕ, Bool, ◌++◌, Bytes, codes, Error, Result, ok, err, panic, stuck, check, cache_not_regular,
  cache_step,
}
use xns.Messages.{message}
use xns.Session.{Outside, Session, ask, lift, ◌>>=◌, ◌>>◌, deferred, or_first}
use xns.RpcProcess
use xns.Claim.{Config}
use xns.Claim.Calls.{wallet_args}

-- The wallet process of a claim, which logs to a file of its own.
unfoldable pub start_wallet_rpc :
    Config → ℕ → Bytes → Bytes → Bytes → Bytes → RpcProcess.Steps RpcProcess.RpcProcess
start_wallet_rpc cfg port log_path wallet_file wallet_dir password =
    RpcProcess.start_process (log_path ++ codes ".stdout")
      (wallet_args cfg port log_path wallet_file wallet_dir password)

-- The calls of the two files: the one that is read, and the one that is written.
pub data Call : Type 0 where
  open_source open_target : Bytes → Call
  -- whether the file is a regular one
  stat_regular : Call
  copy sync close_source close_target : Call

abbrev pub Answer : Call → Type 0
Answer stat_regular = Bool
Answer _ = Unit {0}

abbrev pub outside : Outside
outside = record { Call = Call; Answer = Answer }

abbrev pub Steps : Type 0 → Type 0
Steps A = Session outside A

-- `fmt.Errorf("<step>: %w", err)` where there is an error.
abbrev pub explained : {A : Type 0} → Bytes → Result A → Result A
explained step (ok a) = ok a
explained step (err e) = err (cache_step step (message e))
explained step panic = panic
explained step stuck = stuck

unfoldable pub ask_explained : Bytes → (c : Call) → Steps (Answer c)
unfolding ask
ask_explained step c w past = let (r, now) = ask c w past in (explained step r, now)

-- Once both are open.
unfoldable pub write_target : Steps (Unit {0})
write_target = do
  or_first close_target (ask_explained (codes "copy full wallet cache") copy)
  or_first close_target (ask_explained (codes "sync temporary watch wallet cache") sync)
  ask_explained (codes "close temporary watch wallet cache") close_target

unfoldable pub read_source : Bytes → Steps (Unit {0})
read_source destination = do
  regular ← ask_explained (codes "stat full wallet cache") stat_regular
  lift (check regular cache_not_regular)
  ask_explained (codes "open temporary watch wallet cache") (open_target destination)
  write_target

unfoldable pub copy_wallet_cache : Bytes → Bytes → Steps (Unit {0})
copy_wallet_cache source destination = do
  ask_explained (codes "open full wallet cache") (open_source source)
  deferred close_source (read_source destination)
