-- ===== src/Store/RoundTrip.antt =====
-- `Load` after `Save`.
use xns.Common.{
  ◌^◌, ◌<◌, ◌≡◌, refl, sym, ap, ◌∙◌, true, Option, none, some, List, [], ◌∷◌, ◌++◌, map, Bytes,
  codes, same, same_iff, Result, ok, err, panic, stuck, Bool-cases, Option-cases, inl, inr,
}
use mathlib.Core.List.{Perm, perm_middle, append-nil}
use mathlib.Core.List.Perm
use xns.Common.Table.{Table, get, put, get-put}
use xns.Decimal.{print}
use xns.Decimal.RoundTrip.{parse_uint-print}
use xns.Registry.{Event, Entry}
use xns.Registry.Keys.{IsNames, get-name}
use xns.Store.{
  Snapshot, NameRow, TxidRow, EventRow, Sqlite, entry_of, event_of, events_of, event_row_of,
  load_names, load, text_or_empty, write, finish, save,
}
use xns.Store.Sql.{IsSql, sort_by, name_before, txid_before, event_before, of_name}
use xns.Store.Ordered.{
  sort_by-perm, find_row, IsOnly, IsDistinct, find_row-sort_by, IsDistinct-sort_by,
}
use xns.Store.Saved.{push_meta, push_names, push_events, tables_of, write-committed}
use xns.Store.Loaded.{
  event_of-event_row_of, stored_sources, row_at, find_row-push_names, IsDistinct-push_names,
}

-- The events of the pushed rows are the snapshot's, in some order.
events_of-push_events :
    (events : List Event) (rows : List EventRow)
    → Perm (events_of (push_events events rows)) (events ++ events_of rows)
unfolding push_events
events_of-push_events [] rows = Perm.rfl
events_of-push_events (e ∷ events) rows =
    Perm.trans (events_of-push_events events (event_row_of e ∷ rows))
      (rw (event_of-event_row_of e) (perm_middle events (events_of rows)))

-- The same snapshot, up to the order of the events and of the map.
abbrev pub IsCopy : Snapshot → Snapshot → Type 0
IsCopy loaded snap =
    (loaded.height ≡ snap.height)
    × (loaded.block_hash ≡ snap.block_hash)
    × (loaded.protocol_address ≡ snap.protocol_address)
    × ((k : Bytes) → get loaded.names k ≡ get snap.names k)
    × Perm loaded.events snap.events

module _ (q : Sqlite) (sql : IsSql q) where
  abbrev sources_in : q.Handle → Bytes → List Bytes
  sources_in d name =
      map (λ (r : TxidRow). r.txid) (sort_by txid_before (of_name name (sql.committed d).txids))

  -- The entry of a row, or else what stood in the map.
  abbrev entry_at : q.Handle → Option NameRow → Option Entry → Option Entry
  entry_at d none before = before
  entry_at d (some row) before = some (entry_of row (sources_in d row.name))

  find_row_only :
      (rows : List NameRow) (row : NameRow) (k : Bytes)
      → IsOnly row rows
      → same row.name k ≡ true
      → find_row rows k ≡ none
  unfolding find_row
  find_row_only [] row k h e = refl
  find_row_only (r ∷ rows) row k (p, h) e =
      rw
        (
          sym ((same_iff row.name k).0 e),
          p,
          (same_iff row.name k).0 e,
          find_row_only rows row k h e,
        )
        refl

  load_names-get :
      (d : q.Handle) (rows : List NameRow) (names : Table Entry)
      → IsDistinct rows
      → (m : Table Entry) × (load_names q d rows names ≡ ok m)
        × ((k : Bytes) → get m k ≡ entry_at d (find_row rows k) (get names k))
  unfolding load_names find_row
  load_names-get d [] names h = (names, refl, λ k. refl)
  load_names-get d (row ∷ rows) names (only, h) =
      let next = put names row.name (entry_of row (sources_in d row.name)) in
      let (m, e, at) = load_names-get d rows next h in
      (
        m,
        rw (sql.txids_law d row.name, e) refl,
        λ k. elim (Bool-cases (same row.name k)) [
          | inl b ↦ rw (at k, get-put, b, find_row_only rows row k only b) refl
          | inr b ↦ rw (at k, get-put, b) refl
        ],
      )

  -- What stands in the map read after a save.
  entry_at-saved :
      (d : q.Handle) (snap : Snapshot)
      → IsNames snap.names
      → sql.committed d ≡ tables_of snap
      → (k : Bytes) → entry_at d (row_at (get snap.names k) none) none ≡ get snap.names k
  unfolding row_at
  entry_at-saved d snap h e k = elim (Option-cases (get snap.names k)) [
    | inl absent ↦ rw absent refl
    | inr (entry, found) ↦
        let named = get-name snap.names k entry h found in
        let sources = stored_sources snap.names entry h (ap (get snap.names) named ∙ found) in
        rw (found, e, sources) refl
  ]

  stored_texts :
      (block_hash address height : Bytes)
      → let meta =
          push_meta
            (codes "protocol_address")
            address
            (push_meta (codes "block_hash") block_hash ((codes "height", height) ∷ [])) in
        (get meta (codes "height") ≡ some height)
        × (text_or_empty (get meta (codes "block_hash")) ≡ block_hash)
        × (text_or_empty (get meta (codes "protocol_address")) ≡ address)
  unfolding get same codes
  stored_texts [] [] height = (refl, refl, refl)
  stored_texts [] (c ∷ cs) height = (refl, refl, refl)
  stored_texts (c ∷ cs) [] height = (refl, refl, refl)
  stored_texts (c ∷ cs) (b ∷ bs) height = (refl, refl, refl)

  load-committed :
      (d : q.Handle) (snap : Snapshot)
      → snap.height < 2 ^ 64
      → IsNames snap.names
      → sql.committed d ≡ tables_of snap
      → (loaded : Snapshot) × (load q d ≡ ok loaded) × IsCopy loaded snap
  unfolding load find_row get
  load-committed d snap fits h e =
      let (height, block_hash, address) =
        stored_texts snap.block_hash snap.protocol_address (print snap.height) in
      let pushed = push_names snap.names [] in
      let distinct = IsDistinct-push_names snap.names [] h tt tt in
      let (m, read, at) =
        load_names-get d (sort_by name_before pushed) [] (IsDistinct-sort_by pushed distinct) in
      let rows = sort_by event_before (push_events snap.events []) in
      let names : (k : Bytes) → get m k ≡ get snap.names k = λ k.
        at k
        ∙ rw (find_row-sort_by pushed k distinct, find_row-push_names snap.names [] k h)
            (entry_at-saved d snap h e k) in
      let events : Perm (events_of rows) snap.events =
        Perm.trans (Perm.map event_of (sort_by-perm event_before (push_events snap.events [])))
          (rw append-nil at (events_of-push_events snap.events [])) in
      let loaded : Snapshot = record {
        height = snap.height;
        block_hash = snap.block_hash;
        protocol_address = snap.protocol_address;
        names = m;
        events = events_of rows;
      } in
      (
        loaded,
        rw
            (
              sql.meta_law d (codes "height"),
              sql.meta_law d (codes "protocol_address"),
              sql.meta_law d (codes "block_hash"),
              sql.names_law d,
              sql.events_law d,
              e,
              height,
              block_hash,
              address,
              read,
              parse_uint-print snap.height fits,
            )
            refl,
        (refl, refl, refl, names, events),
      )

  write-eq-ok : (d d' : q.Handle) (r : Result q.Handle) → finish q d r ≡ (d', ok tt) → r ≡ ok d'
  unfolding finish
  write-eq-ok d d' (ok u) h = cc
  write-eq-ok d d' (err e) h = cc
  write-eq-ok d d' panic h = cc
  write-eq-ok d d' stuck h = cc

  -- After a Save that succeeds, of a snapshot with a height of 64 bits and each entry under its own
  -- name, Load succeeds, and its result is a copy of the snapshot: the height, the block hash and the
  -- address are the same, the same names have the same entries, and the events are the same in some order.
  pub load-save :
      (d d' : q.Handle) (snap : Snapshot)
      → snap.height < 2 ^ 64
      → IsNames snap.names
      → save q d snap ≡ (d', ok tt)
      → (loaded : Snapshot) × (load q d' ≡ ok loaded) × IsCopy loaded snap
  unfolding save
  load-save d d' snap fits h saved =
      load-committed d' snap fits h
        (write-committed q sql d d' snap (write-eq-ok d d' (write q d snap) saved))
