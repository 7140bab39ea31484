-- ===== src/Indexer/Concurrent/Serving.antt =====
-- The owners that lookups give out.
use xns.Common.{◌≡◌, sym, subst, true, ℕ, Bytes, Result, ok}
use xns.Store.{Snapshot}
use xns.Protocol.Names.{IsName}
use xns.Protocol.Owners.{IsOwner}
use xns.Indexer.{State}
use xns.Indexer.Server.{Server, handle_lookup, answer, trim_space, LookupResponse}
use xns.Indexer.Storing.{handle_lookup-found}
use xns.Indexer.Start.{first_server}
use xns.Indexer.Owners.{OwnersAreKeys, scan_once-OwnersAreKeys}
use xns.Indexer.Concurrent.{Machine, Steps}
use xns.Indexer.Concurrent.Interleaving.{fresh_machine, IsResult, ready-IsLatest}

IsResult-OwnersAreKeys :
    (address : Bytes) (s : State) (old : Snapshot) → IsResult address s old → OwnersAreKeys s
IsResult-OwnersAreKeys address s old (w, visible, durable, hash, scanned, shows, _) =
    subst OwnersAreKeys (sym shows) (scan_once-OwnersAreKeys w visible durable hash scanned).0

-- Whatever is in the chain and however the goroutines of scans and the lookups interleave behind the
-- start, a name that a lookup gives out as found is allowed, and its owner key is the hexadecimal
-- form of the standard encoding of a point of the curve, other than the identity, whose multiple by
-- the group's order is the identity.
pub handle_lookup-IsOwner :
    (address : Bytes) (loaded : Snapshot) (reopened : Result (Unit {0}))
    (block_hash : ℕ → Result Bytes) (s : Server) (m : Machine) (path query : Bytes)
    (r : LookupResponse)
    → first_server address loaded reopened block_hash ≡ ok s
    → Steps address (fresh_machine s) m
    → handle_lookup m.server path query ≡ ok (answer r)
    → r.found ≡ true
    → IsName (trim_space query) × IsOwner r.owner_key
handle_lookup-IsOwner address loaded reopened block_hash s m path query r start steps h found =
    let (_, named, ready, (e, held, _, key)) = handle_lookup-found m.server path query r h found in
    let ((old, seen), _) =
      ready-IsLatest address loaded reopened block_hash s m start steps ready in
    let owner = IsResult-OwnersAreKeys address m.server.state old seen (trim_space query) e held in
    (named, subst IsOwner (sym key) owner)
