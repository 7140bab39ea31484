-- ===== src/Tests/Store.antt =====
-- A run of pkg/store/store.go against a database that keeps its tables in memory.
use xns.Common.{
  ℕ, ◌≡◌, refl, Bool, false, ◌||◌, List, [], ◌∷◌, Bytes, codes, same, Result, ok, err, map,
  if◌then◌else◌, Bool-cases, inl, inr, arith, foreign, ok-injective, sym,
}
use xns.Common.Table.{get}
use xns.Decimal.{print}
use xns.Registry.{ignored, Event}
use xns.Store.{
  Snapshot, TxidRow, EventRow, Statement, insert_event, Sqlite, save, save_names, save_txids,
  save_events, save_text, clear, write, load,
}
use xns.Store.Sql.{Tables, after, IsSql, sort_by, name_before, txid_before, event_before, of_name}
use xns.Store.Saved.{tables_of, push_names, push_sources, push_txids, push_events}
use xns.Store.RoundTrip.{IsCopy, load-save}
use xns.Registry.{apply, apply_payload, claim}
use xns.Protocol.{years_from_amount}
use xns.Common.Table.{put}
use xns.Registry.Ledger.{Input, apply_inputs}
use xns.Indexer.Scan.{durable_height}
use xns.Indexer.Replaying.{scan_inputs, state_of, up_to, events_of}
use xns.Indexer.Storing.{snapshot_of}
use xns.Indexer.Reload.{load-scan_once}
use xns.Tests.Registry.{one_name}
use xns.Tests.Indexer.{chain, inputs, scan_run}

abbrev any_event : Bytes → List EventRow → Bool
any_event txid [] = false
any_event txid (r ∷ rs) = same r.txid txid || any_event txid rs

-- The key of the events is checked.
abbrev refused : Statement → Tables → Bool
refused (insert_event row) t = any_event row.txid t.events
refused _ t = false

abbrev execute : Tables → Statement → Result Tables
execute t s =
    if refused s t
    then err (foreign (codes "UNIQUE constraint failed: events.txid"))
    else ok (after s t)

abbrev database : Sqlite
database = record {
  Handle = Tables;
  Transaction = Tables;
  begin = ok;
  exec = execute;
  commit = ok;
  select_meta = λ t key. ok (get t.meta key);
  select_names = λ t. ok (sort_by name_before t.names);
  select_txids =
      λ t name. ok (map (λ (r : TxidRow). r.txid) (sort_by txid_before (of_name name t.txids)));
  select_events = λ t. ok (sort_by event_before t.events);
}

executed : (t t' : Tables) (s : Statement) → execute t s ≡ ok t' → t' ≡ after s t
executed t t' s h = elim (Bool-cases (refused s t)) [
  | inl b ↦
      let bad : err (foreign (codes "UNIQUE constraint failed: events.txid")) ≡ ok t' = rw b at h in
      cc
  | inr b ↦ sym (ok-injective (rw b at h))
]

database-IsSql : IsSql database
database-IsSql = record {
  committed = λ t. t;
  pending = λ t. t;
  begin_law = λ d t h. sym (ok-injective h);
  exec_law = executed;
  commit_law = λ t d h. sym (ok-injective h);
  meta_law = λ d key. refl;
  names_law = λ d. refl;
  txids_law = λ d name. refl;
  events_law = λ d. refl;
}

abbrev an_event : Event
an_event = record {
  txid = codes "bb";
  height = 3;
  amount = 5;
  years = 0;
  name = [];
  owner_key = [];
  action = ignored;
  reason = codes "no";
  previous_expiration_height = 0;
  expiration_height = 0;
}

abbrev a_snapshot : Snapshot
a_snapshot = record {
  height = 90;
  block_hash = codes "dd";
  protocol_address = codes "P";
  names = one_name.names;
  events = record an_event { txid = codes "cc"; height = 4 } ∷ an_event ∷ [];
}

abbrev old : Tables
old = record { meta = (codes "height", codes "1") ∷ []; names = []; txids = []; events = [] }

saved : save database old a_snapshot ≡ (tables_of a_snapshot, ok tt)
unfolding save write clear save_text save_names save_txids save_events after push_names push_sources
    push_txids push_events same codes print
saved = refl

load-save_example :
    (loaded : Snapshot) × (load database (tables_of a_snapshot) ≡ ok loaded)
    × IsCopy loaded a_snapshot
unfolding get
load-save_example =
    load-save database database-IsSql old (tables_of a_snapshot) a_snapshot (omega arith)
      (refl, refl, tt) saved

-- What the scan of the chain of the indexer's runs stores.
abbrev scan_snapshot : Snapshot
scan_snapshot = snapshot_of (codes "P") (state_of 90 inputs) (codes "dd")

scan_saved : save database old scan_snapshot ≡ (tables_of scan_snapshot, ok tt)
unfolding save write clear save_text save_names save_txids save_events after push_names push_sources
    push_txids push_events same codes print get put apply_inputs apply apply_payload claim
    years_from_amount events_of
scan_saved = refl

load-scan_once_example :
    (height : ℕ) × (is : List Input) × (loaded : Snapshot) × (chain.wallet_height ≡ ok height)
    × (scan_inputs chain ≡ ok is)
    × (load database (tables_of scan_snapshot) ≡ ok loaded)
    × IsCopy loaded (
        snapshot_of
          (codes "P")
          (state_of (durable_height height 10) (up_to (durable_height height 10) is))
          (codes "dd"))
load-scan_once_example =
    load-scan_once database database-IsSql old (tables_of scan_snapshot) chain (state_of 100 inputs)
      (state_of 90 inputs) (codes "dd") (codes "P") (omega arith) scan_run scan_saved
