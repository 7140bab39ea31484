-- ===== src/Indexer/Concurrent/Interleaving.antt =====
-- What lookups see between the steps of scans.
use xns.Common.{ℕ, ◌≡◌, ◌⊎◌, inl, inr, refl, true, false, Bytes, Result, ok}
use xns.Store.{Snapshot}
use xns.Indexer.{Answers, State}
use xns.Indexer.Scan.{scan_once}
use xns.Indexer.Server.{Server, handle_lookup, respond, answer, trim_space, LookupResponse}
use xns.Indexer.Storing.{snapshot_of, handle_lookup-answer}
use xns.Indexer.Start.{first_server}
use xns.Indexer.Start.Fresh.{IsOwn, first_server-IsOwn}
use xns.Indexer.Concurrent.{
  Holder, nobody, scanning, rebuilding, saved, Machine, MaySave, first, second, Step, Steps, ticks,
  skips, locks, hides, fails, saves, shows, none_more, more,
}

-- A scan gave this visible state, and this is what was saved of it.
abbrev pub IsResult : Bytes → State → Snapshot → Type 0
IsResult address state stored =
    (w : Answers) × (visible : State) × (durable : State) × (hash : Bytes) × (scan_once w
      ≡ ok (visible, durable, hash))
    × (state ≡ visible)
    × (stored ≡ snapshot_of address durable hash)

-- What is stored belongs to what is shown, but for the time between the saving and the showing of a
-- scan: then it belongs to what is shown next.
abbrev pub Agrees : Bytes → Server → Holder → Type 0
Agrees address s (saved next) =
    IsResult address next s.stored
    × ((s.ready ≡ false) ⊎ ((old : Snapshot) × IsResult address s.state old))
Agrees address s rebuilding = s.ready ≡ false
Agrees address s _ = (s.ready ≡ false) ⊎ IsResult address s.state s.stored

-- What holds of the server between any two steps.
pub record IsMachine (address : Bytes) (m : Machine) : Type 0 where
  pub own : IsOwn address m.server.stored
  pub agrees : Agrees address m.server m.holder

seen_before :
    {address : Bytes} (s : Server) {h : Holder}
    → MaySave h
    → Agrees address s h
    → (s.ready ≡ false) ⊎ ((old : Snapshot) × IsResult address s.state old)
seen_before s first (inl hid) = inl hid
seen_before s first (inr seen) = inr (s.stored, seen)
seen_before s second hid = inl hid

Step-Agrees :
    (address : Bytes) (m m' : Machine)
    → Step address m m'
    → Agrees address m.server m.holder
    → Agrees address m'.server m'.holder
Step-Agrees address _ _ (ticks s n h) a = a
Step-Agrees address _ _ (skips s n h held) a = a
Step-Agrees address _ _ (locks s n) a = a
Step-Agrees address _ _ (hides s n w e failed deep) a = refl
Step-Agrees address _ _ (fails s n _ first) a = a
Step-Agrees address _ _ (fails s n _ second) a = inl a
Step-Agrees address _ _ (saves s n h w visible durable hash may scanned) a =
    ((w, visible, durable, hash, scanned, refl, refl), seen_before s may a)
Step-Agrees address _ _ (shows s n visible) (result, seen) = inr result

Step-IsOwn :
    (address : Bytes) (m m' : Machine)
    → Step address m m'
    → IsOwn address m.server.stored
    → IsOwn address m'.server.stored
Step-IsOwn address _ _ (ticks s n h) own = own
Step-IsOwn address _ _ (skips s n h held) own = own
Step-IsOwn address _ _ (locks s n) own = own
Step-IsOwn address _ _ (hides s n w e failed deep) own = own
Step-IsOwn address _ _ (fails s n h may) own = own
Step-IsOwn address _ _ (saves s n h w visible durable hash may scanned) own = inl refl
Step-IsOwn address _ _ (shows s n visible) own = own

steps_keep :
    (address : Bytes) (m m' : Machine)
    → Steps address m m'
    → IsMachine address m
    → IsMachine address m'
steps_keep address m _ (none_more _) h = h
steps_keep address m m'' (more _ m' _ one rest) h = steps_keep address m' m'' rest (record {
  own = Step-IsOwn address m m' one h.own;
  agrees = Step-Agrees address m m' one h.agrees;
})

-- A machine behind the start: no scan holds the lock.
abbrev pub fresh_machine : Server → Machine
fresh_machine s = record { server = s; waiting = 1; holder = nobody }

-- From any stored state, and however the goroutines of scans interleave behind the start, the store is
-- empty or holds a state of the protocol's address. Unless a scan is saved and not yet shown, the
-- server is not ready, as is sure while the wallet is built again, or it shows the visible state of
-- a scan whose durable state is stored. In between, the store holds the durable state of the scan
-- that is shown next, and the server is not ready or shows the visible state of an earlier one.
pub Steps-IsMachine :
    (address : Bytes) (loaded : Snapshot) (reopened : Result (Unit {0}))
    (block_hash : ℕ → Result Bytes) (s : Server) (m : Machine)
    → first_server address loaded reopened block_hash ≡ ok s
    → Steps address (fresh_machine s) m
    → IsMachine address m
Steps-IsMachine address loaded reopened block_hash s m start steps =
    let (own, hidden) = first_server-IsOwn address loaded reopened block_hash s start in
    steps_keep address (fresh_machine s) m steps (record { own = own; agrees = inl hidden })

-- What the store holds is of the scan that is shown, or of one that is shown next.
abbrev pub IsLatest : Bytes → State → Machine → Type 0
IsLatest address visible m =
    IsResult address visible m.server.stored
    ⊎ ((next : State) × (m.holder ≡ saved next) × IsResult address next m.server.stored)

latest :
    (address : Bytes) (s : Server) (n : ℕ) (h : Holder)
    → Agrees address s h
    → s.ready ≡ true
    → ((old : Snapshot) × IsResult address s.state old)
      × IsLatest address s.state (record { server = s; waiting = n; holder = h })
latest address s n nobody (inl hid) ready = cc
latest address s n nobody (inr seen) ready = ((s.stored, seen), inl seen)
latest address s n scanning (inl hid) ready = cc
latest address s n scanning (inr seen) ready = ((s.stored, seen), inl seen)
latest address s n rebuilding hid ready = cc
latest address s n (saved next) (result, inl hid) ready = cc
latest address s n (saved next) (result, inr seen) ready = (seen, inr (next, refl, result))

-- Where the server is ready, what it shows is a scan's, and what it stores is the latest.
pub ready-IsLatest :
    (address : Bytes) (loaded : Snapshot) (reopened : Result (Unit {0}))
    (block_hash : ℕ → Result Bytes) (s : Server) (m : Machine)
    → first_server address loaded reopened block_hash ≡ ok s
    → Steps address (fresh_machine s) m
    → m.server.ready ≡ true
    → ((old : Snapshot) × IsResult address m.server.state old) × IsLatest address m.server.state m
ready-IsLatest address loaded reopened block_hash s m start steps ready =
    let agrees = (Steps-IsMachine address loaded reopened block_hash s m start steps).agrees in
    latest address m.server m.waiting m.holder agrees ready

-- However the goroutines of scans and the lookups interleave behind the start, a lookup that is
-- answered is answered from the visible state of a scan that succeeded, and what is stored is the
-- durable state of the same scan, or of the one that is saved and about to be shown.
pub interleaved_answer :
    (address : Bytes) (loaded : Snapshot) (reopened : Result (Unit {0}))
    (block_hash : ℕ → Result Bytes) (s : Server) (m : Machine) (path query : Bytes)
    (r : LookupResponse)
    → first_server address loaded reopened block_hash ≡ ok s
    → Steps address (fresh_machine s) m
    → handle_lookup m.server path query ≡ ok (answer r)
    → (visible : State) × (r ≡ respond visible (trim_space query))
      × ((old : Snapshot) × IsResult address visible old)
      × IsLatest address visible m
interleaved_answer address loaded reopened block_hash s m path query r start steps h =
    let (ready, is_answer) = handle_lookup-answer m.server path query r h in
    let (seen, now) = ready-IsLatest address loaded reopened block_hash s m start steps ready in
    (m.server.state, is_answer, seen, now)
