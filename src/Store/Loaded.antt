-- ===== src/Store/Loaded.antt =====
-- What `Load` makes of the rows that `Save` left.
use xns.Common.{
  ℕ, ◌+◌, ◌≡◌, refl, sym, ap, ◌∙◌, true, Option, none, some, List, [], ◌∷◌, ◌++◌, map, Bytes, same,
  same_iff, All, Bool-cases, inl, inr, ltb, ◌==◌, arith, if◌then◌else◌,
}
use mathlib.Core.List.{append_assoc, append-nil}
use xns.Common.Table.{Table, get}
use xns.Registry.{Event, Entry}
use xns.Registry.Keys.{IsNames}
use xns.Store.{
  NameRow, TxidRow, name_row, event_row_of, null_string, null_uint, text_or_empty, number_or_zero,
  event_of,
}
use xns.Store.Sql.{sort_by, txid_before, of_name}
use xns.Store.Ordered.{All-sort_by, insert_by_last, find_row, IsOnly, IsDistinct}
use xns.Store.Saved.{push_txids, push_names, push_sources}

text_or_empty-null_string : (text : Bytes) → text_or_empty (null_string text) ≡ text
text_or_empty-null_string [] = refl
text_or_empty-null_string (c ∷ cs) = refl

number_or_zero-null_uint : (n : ℕ) → number_or_zero (null_uint n) ≡ n
number_or_zero-null_uint n = elim (Bool-cases (n == 0)) [
  | inl e ↦ rw e (ground (arith, e))
  | inr e ↦ rw e refl
]

-- An event is read back from its row.
pub event_of-event_row_of : (e : Event) → event_of (event_row_of e) ≡ e
event_of-event_row_of e =
    rw
      (
        text_or_empty-null_string e.name,
        text_or_empty-null_string e.owner_key,
        text_or_empty-null_string e.reason,
        number_or_zero-null_uint e.previous_expiration_height,
        number_or_zero-null_uint e.expiration_height,
      )
      refl

-- The rows of the source transactions of a name, in order.
unfoldable txid_rows : Bytes → List Bytes → ℕ → List TxidRow
txid_rows name [] i = []
txid_rows name (txid ∷ txids) i =
    record { name = name; txid = txid; position = i } ∷ txid_rows name txids (i + 1)

map-txid_rows :
    (name : Bytes) (txids : List Bytes) (i : ℕ)
    → map (λ (r : TxidRow). r.txid) (txid_rows name txids i) ≡ txids
unfolding txid_rows
map-txid_rows name [] i = refl
map-txid_rows name (txid ∷ txids) i = ap (λ ts. txid ∷ ts) (map-txid_rows name txids (i + 1))

All-weaken :
    (i : ℕ) (rows : List TxidRow)
    → All (λ (r : TxidRow). ltb r.position i ≡ true) rows
    → All (λ (r : TxidRow). ltb r.position (i + 1) ≡ true) rows
All-weaken i [] h = tt
All-weaken i (r ∷ rows) (p, h) = (ground (arith, p), All-weaken i rows h)

sort_by-push_txids :
    (name : Bytes) (txids : List Bytes) (i : ℕ) (rows : List TxidRow)
    → All (λ (r : TxidRow). ltb r.position i ≡ true) rows
    → sort_by txid_before (push_txids name txids i rows)
      ≡ sort_by txid_before rows ++ txid_rows name txids i
unfolding push_txids txid_rows sort_by
sort_by-push_txids name [] i rows h = sym (append-nil (sort_by txid_before rows))
sort_by-push_txids name (txid ∷ txids) i rows h =
    let row : TxidRow = record { name = name; txid = txid; position = i } in
    let sorted = sort_by txid_before rows in
    let behind = All-sort_by txid_before (λ (r : TxidRow). ltb r.position i ≡ true) rows h in
    sort_by-push_txids name txids (i + 1) (row ∷ rows) (ground arith, All-weaken i rows h)
    ∙ rw (insert_by_last txid_before row sorted behind)
        (append_assoc sorted (row ∷ []) (txid_rows name txids (i + 1)))

of_name-push_txids :
    (name other : Bytes) (txids : List Bytes) (i : ℕ) (rows : List TxidRow)
    → of_name name (push_txids other txids i rows) ≡ (
        if same other name then push_txids other txids i (of_name name rows) else of_name name rows)
unfolding push_txids of_name
of_name-push_txids name other [] i rows = ground arith
of_name-push_txids name other (txid ∷ txids) i rows =
    rw
      (of_name-push_txids name other txids (i + 1)
        (record { name = other; txid = txid; position = i } ∷ rows))
      (ground arith)

-- The source transactions that are read for an entry, when it stands in the map.
sources : Option Entry → List TxidRow → List TxidRow
sources none rows = rows
sources (some e) rows = push_txids e.name e.source_txids 0 rows

of_name-push_sources :
    (names : Table Entry) (name : Bytes) (rows : List TxidRow)
    → IsNames names
    → of_name name (push_sources names rows) ≡ sources (get names name) (of_name name rows)
unfolding push_sources sources get
of_name-push_sources [] name rows h = refl
of_name-push_sources ((k, e) ∷ names) name rows (p, fresh, h) =
    of_name-push_sources names name (push_txids e.name e.source_txids 0 rows) h
    ∙ rw (of_name-push_txids name e.name e.source_txids 0 rows, p)
        (elim (Bool-cases (same k name)) [
          | inl b ↦ rw (b, sym ((same_iff k name).0 b), fresh) refl
          | inr b ↦ rw b refl
        ])

-- The transactions read for an entry are those that were written.
pub stored_sources :
    (names : Table Entry) (e : Entry)
    → IsNames names
    → get names e.name ≡ some e
    → map (λ (r : TxidRow). r.txid) (sort_by txid_before (of_name e.name (push_sources names [])))
      ≡ e.source_txids
unfolding sources of_name sort_by
stored_sources names e h found =
    rw
      (
        of_name-push_sources names e.name [] h,
        found,
        sort_by-push_txids e.name e.source_txids 0 [] tt,
      )
      (map-txid_rows e.name e.source_txids 0)

-- The row of an entry that stands in the map, or else a row that was there.
unfoldable pub row_at : Option Entry → Option NameRow → Option NameRow
row_at none row = row
row_at (some e) row = some (name_row e)

pub find_row-push_names :
    (names : Table Entry) (rows : List NameRow) (k : Bytes)
    → IsNames names
    → find_row (push_names names rows) k ≡ row_at (get names k) (find_row rows k)
unfolding push_names find_row row_at get
find_row-push_names [] rows k h = refl
find_row-push_names ((j, e) ∷ names) rows k (p, fresh, h) =
    find_row-push_names names (name_row e ∷ rows) k h
    ∙ rw p (elim (Bool-cases (same j k)) [
      | inl b ↦ rw (b, sym ((same_iff j k).0 b), fresh) refl
      | inr b ↦ rw b refl
    ])

-- None of the rows has the name of an entry of the map.
abbrev pub AreOthers : Table Entry → List NameRow → Type 0
AreOthers names rows = All (λ (r : NameRow). get names r.name ≡ none) rows

AreOthers-tail :
    (k : Bytes) (e : Entry) (names : Table Entry) (rows : List NameRow)
    → e.name ≡ k
    → AreOthers ((k, e) ∷ names) rows
    → IsOnly (name_row e) rows × AreOthers names rows
unfolding get
AreOthers-tail k e names [] p h = (tt, tt)
AreOthers-tail k e names (r ∷ rows) p (q, h) =
    let (only, others) = AreOthers-tail k e names rows p h in
    elim (Bool-cases (same k r.name)) [
      | inl b ↦ let bad : some e ≡ none = rw b at q in cc
      | inr b ↦ (
        (rw p (ground (arith, b, same_iff k r.name, same_iff r.name k)), only),
        (rw b at q, others),
      )
    ]

pub IsDistinct-push_names :
    (names : Table Entry) (rows : List NameRow)
    → IsNames names
    → AreOthers names rows
    → IsDistinct rows
    → IsDistinct (push_names names rows)
unfolding push_names
IsDistinct-push_names [] rows h others d = d
IsDistinct-push_names ((k, e) ∷ names) rows (p, fresh, h) others d =
    let (only, rest) = AreOthers-tail k e names rows p others in
    IsDistinct-push_names names (name_row e ∷ rows) h (rw p fresh, rest) (only, d)
