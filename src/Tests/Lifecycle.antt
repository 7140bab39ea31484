-- ===== src/Tests/Lifecycle.antt =====
-- Runs of the code that opens and closes: a wallet's process, the copy of a wallet's cache, and the
-- indexer's `Run`.
use xns.Common.{◌≡◌, refl, Bool, true, false, Option, some, [], ◌∷◌, codes, foreign}
use xns.Session.Phases
use xns.Session.{yes, no, World}
use xns.RpcProcess
use xns.RpcProcess.{poll_done, wait_done, listen}
use xns.RpcProcess.Phases.{Phase, idle, ended, StaysDone, phase, start_and_stop}
use xns.RpcProcess.Lifecycle.{phase-start_and_stop}
use xns.Claim.Cache
use xns.Claim.Cache.{copy, stat_regular, copy_wallet_cache}
use xns.Claim.Cache.Copied
use xns.Claim.Cache.Copied.{closed, complete, copy_wallet_cache_lem}
use xns.Indexer.Process.{Config}
use xns.Indexer.Start.{empty_snapshot}
use xns.Indexer.Run
use xns.Indexer.Run.{run, load, match_chain, wait_exit, signalled}
use xns.Indexer.Run.Closing
use xns.Indexer.Run.Closing.{off, phase-run}

-- A process that ends only when it is killed.
abbrev known_ended : Option Phase → Bool
known_ended (some ended) = true
known_ended _ = false

abbrev deaf : World RpcProcess.outside
deaf past poll_done = yes false
deaf past wait_done = yes (known_ended (phase past))
deaf past listen = yes 4242
deaf past _ = yes tt

deaf-StaysDone : StaysDone deaf
deaf-StaysDone past h = rw h refl

-- Stopped three times.
phase-start_and_stop_example :
    phase (start_and_stop 3 (codes "log") (codes "--rpc" ∷ []) deaf []).1 ≡ some idle
phase-start_and_stop_example =
    phase-start_and_stop deaf deaf-StaysDone 2 (codes "log") (codes "--rpc" ∷ [])

-- A disk that is full while the bytes are copied.
abbrev full_disk : World Cache.outside
full_disk past stat_regular = yes true
full_disk past copy = no (foreign (codes "no space left on device"))
full_disk past _ = yes tt

copy_wallet_cache_lem_example :
    Phases.Ends Copied.next closed
      (λ _. complete)
      closed
      (copy_wallet_cache (codes "wallet") (codes "watch") full_disk [])
copy_wallet_cache_lem_example = copy_wallet_cache_lem full_disk (codes "wallet") (codes "watch")

-- A store of another network, and a signal.
abbrev cfg : Config
cfg = record {
  mainnet = true;
  stagenet = false;
  node = codes "node";
  listen = codes ":8080";
  data_dir = codes "data";
}

abbrev other_network : World Run.outside
other_network past load = yes (record empty_snapshot { protocol_address = codes "other" })
other_network past (match_chain snap) = yes true
other_network past wait_exit = yes signalled
other_network past _ = yes tt

phase-run_example :
    Phases.phase Closing.next off (run (codes "address") cfg other_network []).1 ≡ some off
phase-run_example = phase-run other_network (codes "address") cfg
