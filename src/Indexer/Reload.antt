-- ===== src/Indexer/Reload.antt =====
-- What pkg/store/store.go reads back of a scan that was saved.
use xns.Common.{ℕ, ◌<◌, ◌^◌, ◌≡◌, sym, subst, Bytes, ok, List}
use xns.Registry.{new_registry}
use xns.Registry.Keys.{IsNames, apply_inputs-IsNames}
use xns.Registry.Ledger.{Input}
use xns.Store.{Snapshot, Sqlite, save, load}
use xns.Store.Sql.{IsSql}
use xns.Store.RoundTrip.{IsCopy, load-save}
use xns.Indexer.{Answers, State}
use xns.Indexer.Scan.{scan_once, durable_height}
use xns.Indexer.Replaying.{scan_inputs, state_of, up_to, scan_once-state_of}
use xns.Indexer.Storing.{snapshot_of}

-- After a scan that succeeds and a Save of its durable state (at a height of 64 bits) that succeeds,
-- Load succeeds with a copy of the replay, from an empty registry, of the transfers at or below the
-- durable height, which is ten blocks behind the wallet's, and with the scan's block hash.
pub load-scan_once :
    (q : Sqlite) (sql : IsSql q) (d d' : q.Handle) (w : Answers) (visible durable : State)
    (hash address : Bytes)
    → durable.height < 2 ^ 64
    → scan_once w ≡ ok (visible, durable, hash)
    → save q d (snapshot_of address durable hash) ≡ (d', ok tt)
    → (height : ℕ) × (is : List Input) × (loaded : Snapshot) × (w.wallet_height ≡ ok height)
      × (scan_inputs w ≡ ok is)
      × (load q d' ≡ ok loaded)
      × IsCopy loaded (
          snapshot_of address
            (state_of (durable_height height 10) (up_to (durable_height height 10) is))
            hash)
load-scan_once q sql d d' w visible durable hash address fits scanned saved =
    let (height, is, at, reading, (shown, replay)) =
      scan_once-state_of w visible durable hash scanned in
    let past = up_to (durable_height height 10) is in
    let names : IsNames durable.names =
      subst (λ (s : State). IsNames s.names) (sym replay)
        (apply_inputs-IsNames past new_registry tt) in
    let (loaded, e, copy) =
      load-save q sql d d' (snapshot_of address durable hash) fits names saved in
    (
      height,
      is,
      loaded,
      at,
      reading,
      e,
      subst (λ (s : State). IsCopy loaded (snapshot_of address s hash)) replay copy,
    )
