-- ===== src/Indexer/Storing.antt =====
-- What is shown and what is stored go together; and who is answered with a name.
use xns.Common.{
  ◌≡◌, refl, ◌⊎◌, inl, inr, ◌<◌, ap, sym, ◌∙◌, some, Bool, true, false, Bytes, codes, same,
  same_iff, Result, ok, err, panic, stuck, ok-injective, Bool-cases, Option-cases, leb, ◌>>◌, arith,
}
use xns.Common.Table.{get}
use xns.Protocol.{valid_name}
use xns.Protocol.Names.{IsName, valid_name_iff}
use xns.Registry.{Entry}
use xns.Indexer.{Answers, State}
use xns.Indexer.Scan.{scan_once}
use xns.Store.{Snapshot}
use xns.Indexer.Server.{
  Server, store_scan, after_scan, scan, scan_and_store, is_deep_reorg, handle_lookup, reply_for,
  respond, not_found, answer, trim_space, LookupResponse,
}

-- What the store holds after a scan.
abbrev pub snapshot_of : Bytes → State → Bytes → Snapshot
snapshot_of address durable hash = record {
  height = durable.height;
  block_hash = hash;
  protocol_address = address;
  names = durable.names;
  events = durable.events;
}

-- The server shows and stores the two states of one scan.
abbrev pub ShowsScan : Bytes → Answers → Server → Type 0
ShowsScan address w s =
    (visible : State) × (durable : State) × (hash : Bytes) × (scan_once w
      ≡ ok (visible, durable, hash))
    × (s ≡ record { state = visible; ready = true; stored = snapshot_of address durable hash })

-- The server shows and stores what it did before, or shows nothing and stores the same.
abbrev pub IsKept : Server → Server → Type 0
IsKept s s' =
    (s'.state ≡ s.state) × (s'.stored ≡ s.stored) × ((s'.ready ≡ s.ready) ⊎ (s'.ready ≡ false))

store_scan_lem :
    (address : Bytes) (s t : Server) (w : Answers) (saved : Result (Unit {0}))
    (r : Result (State × State × Bytes))
    → IsKept s t
    → ((q : State × State × Bytes) → r ≡ ok q → scan_once w ≡ ok q)
    → ShowsScan address w (store_scan address saved (t, r)).0
      ⊎ IsKept s (store_scan address saved (t, r)).0
unfolding store_scan
store_scan_lem address s t w saved (err e) kept from = inr kept
store_scan_lem address s t w saved panic kept from = inr kept
store_scan_lem address s t w saved stuck kept from = inr kept
store_scan_lem address s t w (err e) (ok (visible, durable, hash)) kept from = inr kept
store_scan_lem address s t w panic (ok (visible, durable, hash)) kept from = inr kept
store_scan_lem address s t w stuck (ok (visible, durable, hash)) kept from = inr kept
store_scan_lem address s t w (ok u) (ok (visible, durable, hash)) kept from =
    inl (visible, durable, hash, from (visible, durable, hash) refl, refl)

rebuilt-again :
    (rebuilt : Result (Unit {0})) (r : Result (State × State × Bytes)) (q : State × State × Bytes)
    → (rebuilt >> r) ≡ ok q
    → r ≡ ok q
rebuilt-again (ok u) r q h = h
rebuilt-again (err e) r q h = cc
rebuilt-again panic r q h = cc
rebuilt-again stuck r q h = cc

module _ (address : Bytes) (s : Server) (first again : Answers)
    (rebuilt saved : Result (Unit {0})) where
  after_scan-shown :
      (r : Result (State × State × Bytes))
      → ((q : State × State × Bytes) → r ≡ ok q → scan_once first ≡ ok q)
      → (ShowsScan address first (store_scan address saved (after_scan s rebuilt again r)).0
          ⊎ ShowsScan address again (store_scan address saved (after_scan s rebuilt again r)).0)
        ⊎ IsKept s (store_scan address saved (after_scan s rebuilt again r)).0
  unfolding after_scan store_scan
  after_scan-shown (ok q) from =
      elim (store_scan_lem address s s first saved (ok q) (refl, refl, inl refl) from) [
        | inl shows ↦ inl (inl shows)
        | inr kept ↦ inr kept
      ]
  after_scan-shown (err e) from = elim (Bool-cases (is_deep_reorg e)) [
    | inl deep ↦
        rw (deep)
          (elim (store_scan_lem address s (record s { ready = false }) again saved
            (rebuilt >> scan_once again) (refl, refl, inr refl)
            (rebuilt-again rebuilt (scan_once again))) [
              | inl shows ↦ inl (inr shows)
              | inr kept ↦ inr kept
            ])
    | inr other ↦ rw (other) (inr (refl, refl, inl refl))
  ]
  after_scan-shown panic from = inr (refl, refl, inl refl)
  after_scan-shown stuck from = inr (refl, refl, inl refl)

  -- Whatever the wallet, the daemon, the rebuilding of the wallet and the store answer, scanAndStore
  -- leaves either both states of one scan, the visible one shown and ready and the durable one stored
  -- with the hash that the scan gave, or both the shown and the stored state of before, and then it is ready only if
  -- it was.
  pub scan_and_store-ShowsScan :
      (locked : Bool)
      → (ShowsScan address first (scan_and_store locked address s first rebuilt again saved).0
          ⊎ ShowsScan address again (scan_and_store locked address s first rebuilt again saved).0)
        ⊎ IsKept s (scan_and_store locked address s first rebuilt again saved).0
  unfolding scan_and_store scan
  scan_and_store-ShowsScan true = after_scan-shown (scan_once first) (λ q h. h)
  scan_and_store-ShowsScan false = inr (refl, refl, inl refl)

respond-found :
    (s : State) (name : Bytes)
    → (respond s name).found ≡ true
    → (e : Entry) × (get s.names name ≡ some e)
      × (s.height < e.expiration_height)
      × ((respond s name).owner_key ≡ e.owner_key)
unfolding respond not_found
respond-found s name h = elim (Option-cases (get s.names name)) [
  | inl absent ↦ cc (rw (absent, respond) at h)
  | inr (e, has) ↦ elim (Bool-cases (leb e.expiration_height s.height)) [
    | inl over ↦ cc (rw (has, over, respond) at h)
    | inr runs ↦ (e, has, ground arith, rw (has, respond, runs) refl)
  ]
]

answer-injective : {a b : LookupResponse} → answer a ≡ answer b → b ≡ a
answer-injective e = cc

reply_for-answer :
    (s : Server) (name : Bytes) (v : Result (Unit {0})) (r : LookupResponse)
    → reply_for s name v ≡ ok (answer r)
    → (v ≡ ok tt) × (s.ready ≡ true) × (r ≡ respond s.state name)
unfolding reply_for
reply_for-answer s name (ok u) r h = elim (Bool-cases s.ready) [
  | inl ready ↦ (refl, ready, answer-injective (ok-injective (rw (ready, reply_for) at h)))
  | inr waits ↦ cc (rw (waits, reply_for) at h)
]
reply_for-answer s name (err e) r h = cc
reply_for-answer s name panic r h = cc
reply_for-answer s name stuck r h = cc

-- An answer is given only when the server is ready, from the state that is shown.
pub handle_lookup-answer :
    (s : Server) (path query : Bytes) (r : LookupResponse)
    → handle_lookup s path query ≡ ok (answer r)
    → (s.ready ≡ true) × (r ≡ respond s.state (trim_space query))
unfolding handle_lookup
handle_lookup-answer s path query r h = elim (Bool-cases (same path (codes "/lookup"))) [
  | inl here ↦
      let name = trim_space query in
      let (_, ready, is_answer) =
        reply_for-answer s name (valid_name name) r (rw (here, handle_lookup) at h) in
      (ready, is_answer)
  | inr there ↦ cc (rw (there, handle_lookup) at h)
]

-- A lookup is answered with a found name only where the path is /lookup, the trimmed name is allowed,
-- the server is ready, and the shown state has an entry of that name whose lease runs past its height.
-- The answer gives that entry's owner key.
pub handle_lookup-found :
    (s : Server) (path query : Bytes) (r : LookupResponse)
    → handle_lookup s path query ≡ ok (answer r)
    → r.found ≡ true
    → (path ≡ codes "/lookup")
      × IsName (trim_space query)
      × (s.ready ≡ true)
      × ((e : Entry) × (get s.state.names (trim_space query) ≡ some e)
          × (s.state.height < e.expiration_height)
          × (r.owner_key ≡ e.owner_key))
unfolding handle_lookup
handle_lookup-found s path query r h found = elim (Bool-cases (same path (codes "/lookup"))) [
  | inl here ↦
      let name = trim_space query in
      let (valid, ready, is_answer) =
        reply_for-answer s name (valid_name name) r (rw (here, handle_lookup) at h) in
      let (e, has, runs, owner) =
        respond-found s.state name (sym (ap (λ (q : LookupResponse). q.found) is_answer) ∙ found) in
      (
        (same_iff path (codes "/lookup")).0 here,
        (valid_name_iff name).0 valid,
        ready,
        (e, has, runs, ap (λ (q : LookupResponse). q.owner_key) is_answer ∙ owner),
      )
  | inr there ↦ cc (rw (there, handle_lookup) at h)
]
