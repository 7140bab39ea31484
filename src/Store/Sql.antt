-- ===== src/Store/Sql.antt =====
-- What SQLite documents of the statements and queries of the store, on the tables' rows.
use xns.Common.{
  ◌≡◌, Bool, ◌&&◌, ◌||◌, List, [], ◌∷◌, map, Bytes, same, less, ok, ltb, ◌==◌, if◌then◌else◌,
}
use xns.Common.Table.{Table, get}
use xns.Store.{
  NameRow, TxidRow, EventRow, Statement, delete_name_txids, delete_names, delete_events,
  delete_meta, insert_meta, insert_name, insert_name_txid, insert_event, Sqlite,
}

-- The rows of the tables, the last inserted first.
pub record Tables : Type 0 where
  pub meta : Table Bytes
  pub names : List NameRow
  pub txids : List TxidRow
  pub events : List EventRow

unfoldable pub after : Statement → Tables → Tables
after delete_name_txids t = record t { txids = [] }
after delete_names t = record t { names = [] }
after delete_events t = record t { events = [] }
after delete_meta t = record t { meta = [] }
after (insert_meta key value) t = record t { meta = (key, value) ∷ t.meta }
after (insert_name row) t = record t { names = row ∷ t.names }
after (insert_name_txid row) t = record t { txids = row ∷ t.txids }
after (insert_event row) t = record t { events = row ∷ t.events }

-- `ORDER BY`: insertion sort by a strict order.
module _ {A : Type 0} (before : A → A → Bool) where
  unfoldable pub insert_by : A → List A → List A
  insert_by x [] = x ∷ []
  insert_by x (y ∷ ys) = if before y x then y ∷ insert_by x ys else x ∷ y ∷ ys

  unfoldable pub sort_by : List A → List A
  unfolding insert_by
  sort_by [] = []
  sort_by (x ∷ xs) = insert_by x (sort_by xs)

abbrev pub name_before : NameRow → NameRow → Bool
name_before r s = less r.name s.name

abbrev pub txid_before : TxidRow → TxidRow → Bool
txid_before r s = ltb r.position s.position

abbrev pub event_before : EventRow → EventRow → Bool
event_before r s = ltb r.height s.height || (r.height == s.height && less r.txid s.txid)

unfoldable pub of_name : Bytes → List TxidRow → List TxidRow
of_name name [] = []
of_name name (r ∷ rs) = if same r.name name then r ∷ of_name name rs else of_name name rs

-- The documented behaviour: statements change the rows of the transaction, which are those of the
-- handle at its beginning, and are those of the handle that a commit gives; queries read a handle's.
pub record IsSql (q : Sqlite) : Type 0 where
  pub committed : q.Handle → Tables
  pub pending : q.Transaction → Tables
  pub begin_law : (d : q.Handle) (t : q.Transaction) → q.begin d ≡ ok t → pending t ≡ committed d
  pub exec_law :
      (t t' : q.Transaction) (s : Statement) → q.exec t s ≡ ok t' → pending t' ≡ after s (pending t)
  pub commit_law : (t : q.Transaction) (d : q.Handle) → q.commit t ≡ ok d → committed d ≡ pending t
  pub meta_law :
      (d : q.Handle) (key : Bytes) → q.select_meta d key ≡ ok (get (committed d).meta key)
  pub names_law : (d : q.Handle) → q.select_names d ≡ ok (sort_by name_before (committed d).names)
  pub txids_law :
      (d : q.Handle) (name : Bytes)
      → q.select_txids d name
        ≡ ok
            (map (λ (r : TxidRow). r.txid) (sort_by txid_before (of_name name (committed d).txids)))
  pub events_law :
      (d : q.Handle) → q.select_events d ≡ ok (sort_by event_before (committed d).events)
