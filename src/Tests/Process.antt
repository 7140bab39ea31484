-- ===== src/Tests/Process.antt =====
-- Runs of the indexer's wallet process against replies.
use xns.Common.{◌≢◌, refl, true, false, [], ◌∷◌, Bytes, codes, stuck, foreign, if◌then◌else◌}
use xns.Session.{yes, World}
use xns.Session.Levels.{Leaves}
use xns.Indexer.Process.{
  Config, found, missing, Poll, make_dir, remove, file_status, free_port, start, stop, wait,
  get_address, generate_from_keys, outside, keys_of, wallet_file_of, protocol_wallet,
  rebuild_wallet,
}
use xns.Indexer.Process.Runs.{starts, stops, wallet_processes}
use xns.Indexer.Process.Ends.{is_removed, StaysRemoved, protocol_wallet_ends}
use xns.Tests.TxSet.{toy}
use xns.Tests.Payment.{some_addresses, stagenet_address}

abbrev stagenet_config : Config
stagenet_config = record {
  mainnet = false;
  stagenet = true;
  node = codes "n";
  listen = codes "l";
  data_dir = codes "/d";
}

abbrev keys : Bytes
keys = keys_of (wallet_file_of stagenet_config)

-- Another wallet stands in the directory until its files are removed.
abbrev other_wallet : World outside
other_wallet past (file_status path) = if is_removed keys past then yes missing else yes found
other_wallet past free_port = yes 4000
other_wallet past wait = yes (Poll.failed (foreign []) ∷ Poll.ready ∷ [])
other_wallet past get_address = yes (codes "4A")
other_wallet past (make_dir path) = yes tt
other_wallet past (remove path) = yes tt
other_wallet past (start log args) = yes tt
other_wallet past stop = yes tt
other_wallet past (generate_from_keys h n a v) = yes tt

wallet_processes_example :
    Leaves starts stops 0 1 0 (protocol_wallet toy some_addresses stagenet_config 2)
    × Leaves starts stops 1 1 0 (rebuild_wallet toy some_addresses stagenet_config 2)
wallet_processes_example = wallet_processes toy some_addresses stagenet_config 2 0

other_wallet-StaysRemoved : StaysRemoved keys other_wallet
other_wallet-StaysRemoved past h = rw h refl

protocol_wallet_ends_example :
    (protocol_wallet toy some_addresses stagenet_config 2 other_wallet []).0 ≢ stuck
protocol_wallet_ends_example =
    protocol_wallet_ends other_wallet toy some_addresses stagenet_config _ stagenet_address.2
      other_wallet-StaysRemoved 0 []
