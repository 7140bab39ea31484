-- ===== src/Indexer/Process/Starting.antt =====
-- `startWalletRPC` of pkg/indexer/indexer.go. The wallet it opens has no password.
use xns.Common.{ℕ, ◌++◌, Bytes, codes}
use xns.RpcProcess
use xns.Indexer.Process.{Config, wallet_args}

unfoldable pub start_wallet_rpc :
    Config → ℕ → Bytes → Bytes → Bytes → RpcProcess.Steps RpcProcess.RpcProcess
start_wallet_rpc cfg port log_path wallet_file wallet_dir =
    RpcProcess.start_process (log_path ++ codes ".stdout")
      (wallet_args cfg port log_path wallet_file wallet_dir)
