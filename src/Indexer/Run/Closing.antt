-- ===== src/Indexer/Run/Closing.antt =====
-- On every way out of `Run`, what was opened is closed, in order.
use xns.Common.{
  ◌>>◌ as ◌and_then◌, ◌≡◌, refl, Bool, true, false, Option, none, some, [], ◌∷◌, Bytes, Error,
  Result, ok, check, codes, network_choice, node_required, listen_required, data_dir_required,
}
use xns.Store.{Snapshot}
use xns.Session.{Reply, yes, no, World, to_result, tell, lift, deferred, ◌>>=◌, ◌>>◌}
use xns.Session.Phases.{
  Ends, Moves, Moves-bind, Moves-ok, Moves-tell, Moves-ask, Moves-or_first, Moves-deferred,
  phase_at_end,
}
use xns.Session.Phases
use xns.Indexer.Process.{Config, join}
use xns.Indexer.Server.{Server}
use xns.Indexer.Start.{check_config, empty_snapshot, is_stale, taken_over}
use xns.Indexer.Run.{
  Call, Answer, outside, Steps, protocol_wallet, stop_first, stop_current, open_db, remove_db_files,
  load, close_db, match_chain, start_scan, start_loop, listen, wait_exit, wait_scans, shutdown,
  cancel_shutdown, cancel, stop_signals, Exit, listener_failed, listener_closed, signalled, matched,
  wait_for_exit, leave, server_of, serve, reopen, with_wallet, run,
}

-- What runs and is open: nothing; a wallet process without the database; both; then the server's
-- scans too. The process is stopped, and scans.Wait() has come back, or the listener's shutdown has
-- failed; the server's present process is stopped.
pub data Phase : Type 0 where
  off without_db with_db scanning halted settled stopped : Phase

abbrev pub next : (c : Call) → Reply (Answer c) → Phase → Option Phase
next protocol_wallet (yes u) off = some without_db
next protocol_wallet (no e) off = some off
next (open_db path) (yes u) without_db = some with_db
next (open_db path) (no e) without_db = some without_db
next (remove_db_files path) r without_db = some without_db
next load r with_db = some with_db
next (match_chain snap) r with_db = some with_db
next (start_scan server) r with_db = some scanning
next start_loop r scanning = some scanning
next (listen address) r scanning = some scanning
next wait_exit r scanning = some scanning
next cancel r scanning = some scanning
next cancel r off = some off
next stop_first r scanning = some halted
next stop_first r without_db = some off
next shutdown (yes u) halted = some halted
next shutdown (no e) halted = some settled
next wait_scans r halted = some settled
next cancel_shutdown r settled = some settled
next stop_current r settled = some stopped
next close_db r with_db = some without_db
next close_db r stopped = some without_db
next stop_signals r off = some off
next _ _ _ = none

module _ (w : World outside) where
  abbrev Goes : {A : Type 0} → Phase → Phase → Phase → Steps A → Type 0
  Goes before after failed m = Moves next off w before (λ _. after) failed m

  Goes-leave : (exit : Exit) → Goes scanning settled settled (leave exit)
  unfolding leave lift
  Goes-leave (listener_failed e) = Moves-bind (Moves-tell cancel (λ r. refl)) (λ _.
      Moves-bind (Moves-tell stop_first (λ r. refl))
        (λ _. Moves-bind (Moves-tell wait_scans (λ r. refl)) (λ _. record { at = λ past h. h })))
  Goes-leave listener_closed = Moves-bind (Moves-tell cancel (λ r. refl)) (λ _.
      Moves-bind (Moves-tell stop_first (λ r. refl))
        (λ _. Moves-bind (Moves-tell wait_scans (λ r. refl)) (λ _. Moves-ok tt)))
  Goes-leave signalled = Moves-bind (Moves-tell stop_first (λ r. refl)) (λ _.
      Moves-deferred cancel_shutdown
        (Moves-bind (Moves-ask {failed = settled} shutdown (λ a. refl) (λ e. refl))
          (λ _. Moves-tell wait_scans (λ r. refl)))
        (λ r. refl) (λ r. refl))

  Goes-wait_for_exit : Goes scanning scanning settled wait_for_exit
  unfolding wait_for_exit
  Goes-wait_for_exit = record { at = λ past h. rw h refl }

  -- The chain's answer is one or an error.
  taken_from :
      (reply : Reply Bool) (snap : Snapshot)
      → (taken : Snapshot) × (taken_over (to_result reply) snap ≡ ok taken)
  unfolding taken_over
  taken_from (yes true) snap = (snap, refl)
  taken_from (yes false) snap = (empty_snapshot, refl)
  taken_from (no e) snap = (empty_snapshot, refl)

  Goes-check :
      {q : Phase} (b : Bool) (e : Error) (rest : Result (Unit {0}))
      → Goes q q q (lift rest)
      → Goes q q q (lift (check b e and_then rest))
  unfolding lift
  Goes-check true e rest h = h
  Goes-check false e rest h = record { at = λ past h. h }

  Goes-last : {q : Phase} (b : Bool) (e : Error) → Goes q q q (lift (check b e))
  unfolding lift
  Goes-last true e = record { at = λ past h. h }
  Goes-last false e = record { at = λ past h. h }

  module _ (address : Bytes) (cfg : Config) where
    Goes-check_config : Goes off off off (lift (check_config cfg))
    unfolding check_config
    Goes-check_config = Goes-check _ network_choice _ (
        Goes-check _ node_required _
          (Goes-check _ listen_required _ (Goes-last _ data_dir_required)))

    Goes-server :
        (server : Server)
        → Goes with_db stopped stopped (
            deferred stop_current (
              tell (start_scan server)
              >> (tell start_loop
                  >> (tell (listen cfg.listen) >> (wait_for_exit >>= λ exit. leave exit)))))
    Goes-server server =
        Moves-deferred stop_current
          (Moves-bind (Moves-tell (start_scan server) (λ r. refl)) (λ _.
            Moves-bind (Moves-tell start_loop (λ r. refl)) (λ _.
              Moves-bind (Moves-tell (listen cfg.listen) (λ r. refl))
                (λ _. Moves-bind Goes-wait_for_exit Goes-leave))))
          (λ r. refl) (λ r. refl)

    Goes-serve : (snap : Snapshot) → Goes with_db stopped stopped (serve address cfg snap)
    unfolding serve matched lift ◌>>=◌
    Goes-serve snap = record {
      at = λ past h.
          let reply = w past (match_chain snap) in
          let (taken, e) = taken_from reply snap in
          rw e (
            (Goes-server (server_of snap taken)).at
              (record { call = match_chain snap; reply = reply } ∷ past) (rw h refl));
    }

    Goes-reopen :
        (stale : Bool) (path : Bytes) (loaded : Snapshot)
        → Goes with_db with_db without_db (reopen address cfg stale path loaded)
    unfolding reopen
    Goes-reopen false path loaded = Moves-ok loaded
    Goes-reopen true path loaded = Moves-bind (Moves-tell close_db (λ r. refl)) (λ _.
        Moves-bind (Moves-ask (remove_db_files path) (λ a. refl) (λ e. refl)) (λ _.
          Moves-bind (Moves-ask (open_db path) (λ a. refl) (λ e. refl))
            (λ _. Moves-ok empty_snapshot)))

    Goes-with_wallet : Goes without_db without_db without_db (with_wallet address cfg)
    unfolding with_wallet
    Goes-with_wallet =
        let path = join cfg.data_dir (codes "xns.db") in
        Moves-bind (Moves-ask (open_db path) (λ a. refl) (λ e. refl)) (λ _.
          Moves-bind (Moves-or_first close_db (λ r. refl) (Moves-ask load (λ a. refl) (λ e. refl)))
            (λ loaded.
              Moves-bind (Goes-reopen (is_stale address loaded) path loaded)
                (λ snap. Moves-deferred close_db (Goes-serve snap) (λ r. refl) (λ r. refl))))

    Goes-run : Goes off off off (run address cfg)
    unfolding run
    Goes-run = Moves-bind Goes-check_config (λ _.
        Moves-deferred stop_signals
          (Moves-deferred cancel
            (Moves-bind (Moves-ask protocol_wallet (λ a. refl) (λ e. refl))
              (λ _. Moves-deferred stop_first Goes-with_wallet (λ r. refl) (λ r. refl)))
            (λ r. refl) (λ r. refl))
          (λ r. refl) (λ r. refl))

-- Whatever the wallet, the store, the chain and the listener reply, and wherever it fails, Run
-- leaves nothing open: the first wallet process is stopped if it was started, the database is
-- closed as often as it was opened, and is not open while its files are removed. Once scans have
-- started, it is closed only behind the calls that stop both wallet processes, and behind the return
-- of scans.Wait(), unless the listener's shutdown has failed. That is said of the calls of Run: a scan
-- that the ticker's loop starts behind that return is outside of them.
pub phase-run :
    (w : World outside) (address : Bytes) (cfg : Config)
    → Phases.phase next off (run address cfg w []).1 ≡ some off
phase-run w address cfg =
    phase_at_end next off w (run address cfg w []) off ((Goes-run w address cfg).at [] refl)
