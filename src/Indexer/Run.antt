-- ===== src/Indexer/Run.antt =====
-- `Run` of pkg/indexer/indexer.go as calls: what it opens and starts, and what it closes and stops
-- on every way out.
pub mod Closing
use xns.Common.{Bool, true, false, Bytes, codes, Error, Result, ok, err, [], ◌∷◌}
use xns.Store.{Snapshot}
use xns.Session.{
  Outside, Reply, yes, no, Session, to_result, ask, tell, lift, ◌>>=◌, ◌>>◌, deferred, or_first,
}
use xns.Indexer.{State}
use xns.Indexer.Server.{Server}
use xns.Indexer.Process.{Config, join}
use xns.Indexer.Start.{check_config, empty_snapshot, is_stale, taken_over}

-- Why the server ends: its listener fails, is closed, or a signal arrives.
pub data Exit : Type 0 where
  listener_failed : Error → Exit
  listener_closed signalled : Exit

-- `first` is the process that `protocolWallet` gives, `current` the one that the server holds.
pub data Call : Type 0 where
  protocol_wallet stop_first stop_current : Call
  open_db remove_db_files : Bytes → Call
  load close_db : Call
  match_chain : Snapshot → Call
  -- goroutines: the first scan, the loop of later scans, and the listener
  start_scan : Server → Call
  start_loop : Call
  listen : Bytes → Call
  wait_exit wait_scans : Call
  shutdown cancel_shutdown cancel stop_signals : Call

abbrev pub Answer : Call → Type 0
Answer load = Snapshot
Answer (match_chain snap) = Bool
Answer wait_exit = Exit
Answer _ = Unit {0}

abbrev pub outside : Outside
outside = record { Call = Call; Answer = Answer }

abbrev pub Steps : Type 0 → Type 0
Steps A = Session outside A

-- `snapshotMatchesChain`, whose error is looked at and not returned.
unfoldable pub matched : Snapshot → Steps (Result Bool)
matched snap w past =
    let reply = w past (match_chain snap) in
    (ok (to_result reply), record { call = match_chain snap; reply = reply } ∷ past)

abbrev pub exit_of : Reply Exit → Exit
exit_of (yes exit) = exit
exit_of (no e) = listener_failed e

-- `select` of the listener's error and the signal.
unfoldable pub wait_for_exit : Steps Exit
wait_for_exit w past =
    let reply = w past wait_exit in
    (ok (exit_of reply), record { call = wait_exit; reply = reply } ∷ past)

unfoldable pub leave : Exit → Steps (Unit {0})
leave (listener_failed e) = do tell cancel; tell stop_first; tell wait_scans; lift (err e)
leave listener_closed = do tell cancel; tell stop_first; tell wait_scans; lift (ok tt)
leave signalled = do tell stop_first; deferred cancel_shutdown (ask shutdown >> tell wait_scans)

-- What the server starts with.
abbrev pub server_of : Snapshot → Snapshot → Server
server_of stored taken = record {
  state = record { height = taken.height; events = taken.events; names = taken.names };
  ready = false;
  stored = stored;
}

module _ (address : Bytes) (cfg : Config) where
  unfoldable pub serve : Snapshot → Steps (Unit {0})
  serve snap = do
    matches ← matched snap
    taken ← lift (taken_over matches snap)
    deferred stop_current (do
      tell (start_scan (server_of snap taken))
      tell start_loop
      tell (listen cfg.listen)
      exit ← wait_for_exit
      leave exit)

  -- The database of another network is made anew.
  unfoldable pub reopen : Bool → Bytes → Snapshot → Steps Snapshot
  reopen false path loaded = lift (ok loaded)
  reopen true path loaded = do
    tell close_db
    ask (remove_db_files path)
    ask (open_db path)
    lift (ok empty_snapshot)

  unfoldable pub with_wallet : Steps (Unit {0})
  with_wallet = do
    let path = join cfg.data_dir (codes "xns.db")
    ask (open_db path)
    loaded ← or_first close_db (ask load)
    snap ← reopen (is_stale address loaded) path loaded
    deferred close_db (serve snap)

  unfoldable pub run : Steps (Unit {0})
  run = do
    lift (check_config cfg)
    deferred stop_signals
        (deferred cancel (do ask protocol_wallet; deferred stop_first with_wallet))
