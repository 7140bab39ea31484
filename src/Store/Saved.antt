-- ===== src/Store/Saved.antt =====
-- The rows that `Save` leaves in the tables.
use xns.Common.{
  ℕ, ◌+◌, ◌≡◌, refl, sym, ap, List, [], ◌∷◌, Bytes, codes, Result, ok, err, panic, stuck, >>=-eq-ok,
  ok-injective,
}
use xns.Common.Table.{Table}
use xns.Decimal.{print}
use xns.Registry.{Event, Entry}
use xns.Store.{
  Snapshot, NameRow, TxidRow, EventRow, delete_name_txids, delete_names, delete_events, delete_meta,
  insert_meta, insert_name, insert_name_txid, insert_event, Sqlite, name_row, event_row_of,
  save_txids, save_names, wrap_event, save_events, save_text, clear, write,
}
use xns.Store.Sql.{Tables, after, IsSql}

abbrev pub push_meta : Bytes → Bytes → Table Bytes → Table Bytes
push_meta key [] rows = rows
push_meta key (c ∷ cs) rows = (key, c ∷ cs) ∷ rows

unfoldable pub push_txids : Bytes → List Bytes → ℕ → List TxidRow → List TxidRow
push_txids name [] i rows = rows
push_txids name (txid ∷ txids) i rows =
    push_txids name txids (i + 1) (record { name = name; txid = txid; position = i } ∷ rows)

unfoldable pub push_names : Table Entry → List NameRow → List NameRow
push_names [] rows = rows
push_names ((k, e) ∷ names) rows = push_names names (name_row e ∷ rows)

unfoldable pub push_sources : Table Entry → List TxidRow → List TxidRow
push_sources [] rows = rows
push_sources ((k, e) ∷ names) rows = push_sources names (push_txids e.name e.source_txids 0 rows)

unfoldable pub push_events : List Event → List EventRow → List EventRow
push_events [] rows = rows
push_events (e ∷ events) rows = push_events events (event_row_of e ∷ rows)

-- The tables that hold a snapshot and nothing else.
abbrev pub tables_of : Snapshot → Tables
tables_of snap = record {
  meta =
      push_meta (codes "protocol_address") snap.protocol_address
        (push_meta (codes "block_hash") snap.block_hash ((codes "height", print snap.height) ∷ []));
  names = push_names snap.names [];
  txids = push_sources snap.names [];
  events = push_events snap.events [];
}

module _ (q : Sqlite) (sql : IsSql q) where
  save_txids-pending :
      (t t' : q.Transaction) (name : Bytes) (txids : List Bytes) (i : ℕ)
      → save_txids q t name txids i ≡ ok t'
      → sql.pending t'
        ≡ record (sql.pending t) { txids = push_txids name txids i (sql.pending t).txids }
  unfolding save_txids push_txids after
  save_txids-pending t t' name [] i h = ap (λ u. sql.pending u) (sym (ok-injective h))
  save_txids-pending t t' name (txid ∷ txids) i h =
      let row : TxidRow = record { name = name; txid = txid; position = i } in
      let (u, first, rest) = >>=-eq-ok (q.exec t (insert_name_txid row)) _ h in
      rw
        (
          save_txids-pending u t' name txids (i + 1) rest,
          sql.exec_law t u (insert_name_txid row) first,
        )
        refl

  save_names-pending :
      (t t' : q.Transaction) (names : Table Entry)
      → save_names q t names ≡ ok t'
      → sql.pending t' ≡ record (sql.pending t) {
        names = push_names names (sql.pending t).names;
        txids = push_sources names (sql.pending t).txids;
      }
  unfolding save_names push_names push_sources after
  save_names-pending t t' [] h = ap (λ u. sql.pending u) (sym (ok-injective h))
  save_names-pending t t' ((k, e) ∷ names) h =
      let (u, first, rest) = >>=-eq-ok (q.exec t (insert_name (name_row e))) _ h in
      let (v, second, others) = >>=-eq-ok (save_txids q u e.name e.source_txids 0) _ rest in
      rw
        (
          save_names-pending v t' names others,
          save_txids-pending u v e.name e.source_txids 0 second,
          sql.exec_law t u (insert_name (name_row e)) first,
        )
        refl

  wrap_event-eq-ok :
      (txid : Bytes) (r : Result q.Transaction) (t : q.Transaction)
      → wrap_event q txid r ≡ ok t
      → r ≡ ok t
  unfolding wrap_event
  wrap_event-eq-ok txid (ok u) t h = h
  wrap_event-eq-ok txid (err e) t h = cc
  wrap_event-eq-ok txid panic t h = cc
  wrap_event-eq-ok txid stuck t h = cc

  save_events-pending :
      (t t' : q.Transaction) (events : List Event)
      → save_events q t events ≡ ok t'
      → sql.pending t'
        ≡ record (sql.pending t) { events = push_events events (sql.pending t).events }
  unfolding save_events push_events after
  save_events-pending t t' [] h = ap (λ u. sql.pending u) (sym (ok-injective h))
  save_events-pending t t' (e ∷ events) h =
      let step = insert_event (event_row_of e) in
      let (u, first, rest) = >>=-eq-ok (wrap_event q e.txid (q.exec t step)) _ h in
      rw
        (
          save_events-pending u t' events rest,
          sql.exec_law t u step (wrap_event-eq-ok e.txid (q.exec t step) u first),
        )
        refl

  save_text-pending :
      (t t' : q.Transaction) (key text : Bytes)
      → save_text q t key text ≡ ok t'
      → sql.pending t' ≡ record (sql.pending t) { meta = push_meta key text (sql.pending t).meta }
  unfolding save_text after
  save_text-pending t t' key [] h = ap (λ u. sql.pending u) (sym (ok-injective h))
  save_text-pending t t' key (c ∷ cs) h = sql.exec_law t t' (insert_meta key (c ∷ cs)) h

  clear-pending :
      (t t' : q.Transaction)
      → clear q t ≡ ok t'
      → sql.pending t' ≡ record { meta = []; names = []; txids = []; events = [] }
  unfolding clear after
  clear-pending t t' h =
      let (t1, h1, r1) = >>=-eq-ok (q.exec t delete_name_txids) _ h in
      let (t2, h2, r2) = >>=-eq-ok (q.exec t1 delete_names) _ r1 in
      let (t3, h3, r3) = >>=-eq-ok (q.exec t2 delete_events) _ r2 in
      rw
        (
          sql.exec_law t3 t' delete_meta r3,
          sql.exec_law t2 t3 delete_events h3,
          sql.exec_law t1 t2 delete_names h2,
          sql.exec_law t t1 delete_name_txids h1,
        )
        refl

  pub write-committed :
      (d d' : q.Handle) (snap : Snapshot)
      → write q d snap ≡ ok d'
      → sql.committed d' ≡ tables_of snap
  unfolding write after
  write-committed d d' snap h =
      let (t, _, r) = >>=-eq-ok (q.begin d) _ h in
      let (t0, h0, r0) = >>=-eq-ok (clear q t) _ r in
      let step = insert_meta (codes "height") (print snap.height) in
      let (t1, h1, r1) = >>=-eq-ok (q.exec t0 step) _ r0 in
      let (t2, h2, r2) = >>=-eq-ok (save_text q t1 (codes "block_hash") snap.block_hash) _ r1 in
      let (t3, h3, r3) =
        >>=-eq-ok (save_text q t2 (codes "protocol_address") snap.protocol_address) _ r2 in
      let (t4, h4, r4) = >>=-eq-ok (save_names q t3 snap.names) _ r3 in
      let (t5, h5, r5) = >>=-eq-ok (save_events q t4 snap.events) _ r4 in
      rw
        (
          sql.commit_law t5 d' r5,
          save_events-pending t4 t5 snap.events h5,
          save_names-pending t3 t4 snap.names h4,
          save_text-pending t2 t3 (codes "protocol_address") snap.protocol_address h3,
          save_text-pending t1 t2 (codes "block_hash") snap.block_hash h2,
          sql.exec_law t0 t1 step h1,
          clear-pending t t0 h0,
        )
        refl
