-- ===== src/Indexer/Start.antt =====
-- `Run` of pkg/indexer/indexer.go: its checks, what it does with the stored state, and the server
-- that it starts.
pub mod Fresh
use xns.Common.{
  ℕ, Bool, true, false, [], Bytes, same, Result, ok, err, panic, stuck, check, ◌>>=◌, ◌>>◌, not,
  ◌&&◌, ◌||◌, length, ◌==◌, if◌then◌else◌, network_choice, node_required, listen_required,
  data_dir_required,
}
use xns.Store.{Snapshot}
use xns.Indexer.Process.{Config}
use xns.Indexer.Server.{Server, snapshot_matches_chain}

unfoldable pub check_config : Config → Result (Unit {0})
check_config cfg = do
  check (not (cfg.mainnet && cfg.stagenet || not cfg.mainnet && not cfg.stagenet)) network_choice
  check (not (length cfg.node == 0)) node_required
  check (not (length cfg.listen == 0)) listen_required
  check (not (length cfg.data_dir == 0)) data_dir_required

abbrev pub empty_snapshot : Snapshot
empty_snapshot = record {
  height = 0;
  block_hash = [];
  protocol_address = [];
  names = [];
  events = [];
}

-- The stored state is another network's.
unfoldable pub is_stale : Bytes → Snapshot → Bool
is_stale address snap =
    not (same snap.protocol_address address)
    && (not (length snap.protocol_address == 0)
        || not (snap.height == 0)
        || not (length snap.names == 0)
        || not (length snap.events == 0))

-- The state in the store, `reopened` being the result of removing a stale database's files and of
-- opening a new one.
unfoldable pub stored_state : Bytes → Snapshot → Result (Unit {0}) → Result Snapshot
stored_state address loaded reopened =
    if is_stale address loaded then (reopened >> ok empty_snapshot) else ok loaded

-- The state that is taken over, by what `snapshotMatchesChain` says.
unfoldable pub taken_over : Result Bool → Snapshot → Result Snapshot
taken_over (ok true) snap = ok snap
taken_over (ok false) snap = ok empty_snapshot
taken_over (err e) snap = ok empty_snapshot
taken_over panic snap = panic
taken_over stuck snap = stuck

-- The server, with what its store holds.
unfoldable pub first_server :
    Bytes → Snapshot → Result (Unit {0}) → (ℕ → Result Bytes) → Result Server
first_server address loaded reopened block_hash = do
  snap ← stored_state address loaded reopened
  taken ← taken_over (snapshot_matches_chain snap block_hash) snap
  ok (record {
    state = record { height = taken.height; events = taken.events; names = taken.names };
    ready = false;
    stored = snap;
  })
