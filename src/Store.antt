-- ===== src/Store.antt =====
-- pkg/store/store.go: the snapshot of a scan in the tables of an SQLite database.
pub mod Sql
pub mod Ordered
pub mod Saved
pub mod Loaded
pub mod RoundTrip
pub mod Opening
use xns.Common.{
  ℕ, ◌+◌, Bool, true, false, Option, none, some, List, [], ◌∷◌, map, Bytes, codes, Error, Result,
  ok, err, panic, stuck, ◌>>=◌, ◌>>◌, length, ◌==◌, event_row, if◌then◌else◌,
}
use xns.Common.Table.{Table, put}
use xns.Decimal.{print, parse_uint}
use xns.Messages.{message}
use xns.Registry.{Action, Event, Entry}

pub record Snapshot : Type 0 where
  pub height : ℕ
  pub block_hash : Bytes
  pub protocol_address : Bytes
  pub names : Table Entry
  pub events : List Event

-- The rows of the tables, NULL as `none`.
pub record NameRow : Type 0 where
  pub name : Bytes
  pub owner_key : Bytes
  pub expiration_height : ℕ
  pub first_claim_height : ℕ
  pub last_update_height : ℕ

pub record TxidRow : Type 0 where
  pub name : Bytes
  pub txid : Bytes
  pub position : ℕ

pub record EventRow : Type 0 where
  pub txid : Bytes
  pub height : ℕ
  pub amount_atomic : ℕ
  pub years : ℕ
  pub name : Option Bytes
  pub owner_key : Option Bytes
  pub action : Action
  pub reason : Option Bytes
  pub previous_expiration_height : Option ℕ
  pub expiration_height : Option ℕ

-- The statements that `Save` executes, with their arguments.
pub data Statement : Type 0 where
  delete_name_txids delete_names delete_events delete_meta : Statement
  insert_meta : Bytes → Bytes → Statement
  insert_name : NameRow → Statement
  insert_name_txid : TxidRow → Statement
  insert_event : EventRow → Statement

-- What the program calls of database/sql with the SQLite driver. A query gives its rows in order.
pub record Sqlite : Type 1 where
  pub Handle : Type 0
  pub Transaction : Type 0
  pub begin : Handle → Result Transaction
  pub exec : Transaction → Statement → Result Transaction
  pub commit : Transaction → Result Handle
  pub select_meta : Handle → Bytes → Result (Option Bytes)
  pub select_names : Handle → Result (List NameRow)
  pub select_txids : Handle → Bytes → Result (List Bytes)
  pub select_events : Handle → Result (List EventRow)

abbrev pub null_string : Bytes → Option Bytes
null_string [] = none
null_string (c ∷ cs) = some (c ∷ cs)

abbrev pub null_uint : ℕ → Option ℕ
null_uint n = if n == 0 then none else some n

abbrev pub name_row : Entry → NameRow
name_row e = record {
  name = e.name;
  owner_key = e.owner_key;
  expiration_height = e.expiration_height;
  first_claim_height = e.first_claim_height;
  last_update_height = e.last_update_height;
}

abbrev pub event_row_of : Event → EventRow
event_row_of e = record {
  txid = e.txid;
  height = e.height;
  amount_atomic = e.amount;
  years = e.years;
  name = null_string e.name;
  owner_key = null_string e.owner_key;
  action = e.action;
  reason = null_string e.reason;
  previous_expiration_height = null_uint e.previous_expiration_height;
  expiration_height = null_uint e.expiration_height;
}

abbrev pub text_or_empty : Option Bytes → Bytes
text_or_empty none = []
text_or_empty (some text) = text

abbrev pub number_or_zero : Option ℕ → ℕ
number_or_zero none = 0
number_or_zero (some n) = n

abbrev pub read_height : Option Bytes → Result ℕ
read_height none = ok 0
read_height (some text) = parse_uint text

abbrev pub entry_of : NameRow → List Bytes → Entry
entry_of row txids = record {
  name = row.name;
  owner_key = row.owner_key;
  expiration_height = row.expiration_height;
  first_claim_height = row.first_claim_height;
  last_update_height = row.last_update_height;
  source_txids = txids;
}

abbrev pub event_of : EventRow → Event
event_of row = record {
  txid = row.txid;
  height = row.height;
  amount = row.amount_atomic;
  years = row.years;
  name = text_or_empty row.name;
  owner_key = text_or_empty row.owner_key;
  action = row.action;
  reason = text_or_empty row.reason;
  previous_expiration_height = number_or_zero row.previous_expiration_height;
  expiration_height = number_or_zero row.expiration_height;
}

-- The events, in the order of the query.
abbrev pub events_of : List EventRow → List Event
events_of rows = map event_of rows

module _ (q : Sqlite) where
  -- The source transactions of a name, from a position on.
  unfoldable pub save_txids : q.Transaction → Bytes → List Bytes → ℕ → Result q.Transaction
  save_txids t name [] i = ok t
  save_txids t name (txid ∷ txids) i = do
    t' ← q.exec t (insert_name_txid (record { name = name; txid = txid; position = i }))
    save_txids t' name txids (i + 1)

  -- The loop over the map, in the order of its list.
  unfoldable pub save_names : q.Transaction → Table Entry → Result q.Transaction
  save_names t [] = ok t
  save_names t ((k, e) ∷ names) = do
    t' ← q.exec t (insert_name (name_row e))
    t'' ← save_txids t' e.name e.source_txids 0
    save_names t'' names

  -- `fmt.Errorf("event %s: %w", e.TxID, err)`
  wrap_event : Bytes → Result q.Transaction → Result q.Transaction
  wrap_event txid (err e) = err (event_row txid (message e))
  wrap_event txid (ok t) = ok t
  wrap_event txid panic = panic
  wrap_event txid stuck = stuck

  unfoldable pub save_events : q.Transaction → List Event → Result q.Transaction
  unfolding wrap_event
  save_events t [] = ok t
  save_events t (e ∷ events) = do
    t' ← wrap_event e.txid (q.exec t (insert_event (event_row_of e)))
    save_events t' events

  -- A value that is stored where it is not empty.
  unfoldable pub save_text : q.Transaction → Bytes → Bytes → Result q.Transaction
  save_text t key [] = ok t
  save_text t key (c ∷ cs) = q.exec t (insert_meta key (c ∷ cs))

  unfoldable pub clear : q.Transaction → Result q.Transaction
  clear t = do
    t1 ← q.exec t delete_name_txids
    t2 ← q.exec t1 delete_names
    t3 ← q.exec t2 delete_events
    q.exec t3 delete_meta

  unfoldable pub write : q.Handle → Snapshot → Result q.Handle
  write d snap = do
    t ← q.begin d
    t0 ← clear t
    t1 ← q.exec t0 (insert_meta (codes "height") (print snap.height))
    t2 ← save_text t1 (codes "block_hash") snap.block_hash
    t3 ← save_text t2 (codes "protocol_address") snap.protocol_address
    t4 ← save_names t3 snap.names
    t5 ← save_events t4 snap.events
    q.commit t5

  -- A transaction that is not committed is rolled back.
  finish : q.Handle → Result q.Handle → q.Handle × Result (Unit {0})
  finish d (ok d') = (d', ok tt)
  finish d (err e) = (d, err e)
  finish d panic = (d, panic)
  finish d stuck = (d, stuck)

  unfoldable pub save : q.Handle → Snapshot → q.Handle × Result (Unit {0})
  unfolding finish
  save d snap = finish d (write d snap)

  unfoldable pub load_names : q.Handle → List NameRow → Table Entry → Result (Table Entry)
  load_names d [] names = ok names
  load_names d (row ∷ rows) names = do
    txids ← q.select_txids d row.name
    load_names d rows (put names row.name (entry_of row txids))

  unfoldable pub load : q.Handle → Result Snapshot
  load d = do
    height_text ← q.select_meta d (codes "height")
    height ← read_height height_text
    address ← q.select_meta d (codes "protocol_address")
    block_hash ← q.select_meta d (codes "block_hash")
    rows ← q.select_names d
    names ← load_names d rows []
    event_rows ← q.select_events d
    ok (record {
      height = height;
      block_hash = text_or_empty block_hash;
      protocol_address = text_or_empty address;
      names = names;
      events = events_of event_rows;
    })
