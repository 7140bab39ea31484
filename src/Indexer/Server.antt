-- ===== src/Indexer/Server.antt =====
-- The server: lookups, the scan that is made again after a deep reorganisation, the saving of a scan
-- and the check of the stored state at the start.
use xns.Common.{
  ℕ, ◌+◌, ◌-◌, ◌%◌, ◌^◌, Bool, true, false, ◌&&◌, ◌||◌, not, none, some, List, [], ◌∷◌, map, Bytes,
  codes, same, Error, Result, ok, err, panic, stuck, ◌>>=◌, ◌>>◌, no_anchor, length, leb, ◌==◌,
  if◌then◌else◌,
}
use mathlib.Core.List.{reverse}
use xns.Common.Table.{get}
use xns.Hex.RoundTrip.{to_lower}
use xns.Messages.{message}
use xns.Protocol.{valid_name}
use xns.Store.{Snapshot}
use xns.TxSet.{starts_with}
use xns.Indexer.{Answers, State}
use xns.Indexer.Scan.{scan_once}

-- The body of an answer with status 200.
pub record LookupResponse : Type 0 where
  pub found : Bool
  pub name : Bytes
  pub owner_key : Bytes
  pub expiration_height : ℕ
  pub remaining_blocks : ℕ
  pub finalized : Bool
  pub source_txids : List Bytes

pub data Reply : Type 0 where
  failure : ℕ → Bytes → Reply
  answer : LookupResponse → Reply

-- The fields of the server that change, with what the store holds.
pub record Server : Type 0 where
  pub state : State
  pub ready : Bool
  pub stored : Snapshot

-- The white space of ASCII.
is_space : ℕ → Bool
is_space c = leb 9 c && leb c 13 || c == b' '

trim_left : Bytes → Bytes
unfolding is_space
trim_left [] = []
trim_left (c ∷ cs) = if is_space c then trim_left cs else c ∷ cs

-- `strings.TrimSpace` on ASCII.
unfoldable pub trim_space : Bytes → Bytes
unfolding trim_left
trim_space cs = reverse (trim_left (reverse (trim_left cs)))

-- An entry without a lease that runs.
unfoldable pub not_found : Bytes → LookupResponse
not_found name = record {
  found = false;
  name = name;
  owner_key = [];
  expiration_height = 0;
  remaining_blocks = 0;
  finalized = false;
  source_txids = [];
}

-- The differences are those of uint64.
unfoldable pub respond : State → Bytes → LookupResponse
unfolding not_found
respond s name = elim (get s.names name) [
  | none ↦ not_found name
  | some entry ↦ if leb entry.expiration_height s.height then not_found name else record {
    found = true;
    name = name;
    owner_key = entry.owner_key;
    expiration_height = entry.expiration_height;
    remaining_blocks = (entry.expiration_height + 2 ^ 64 - s.height) % 2 ^ 64;
    finalized = leb 10 ((s.height + 2 ^ 64 - entry.last_update_height) % 2 ^ 64);
    source_txids = entry.source_txids;
  }
]

-- What follows the check of the name.
unfoldable pub reply_for : Server → Bytes → Result (Unit {0}) → Result Reply
unfolding respond
reply_for s name (err e) = ok (failure 400 (message e))
reply_for s name panic = panic
reply_for s name stuck = stuck
reply_for s name (ok u) =
    if not s.ready
    then ok (failure 503 (codes "indexer is synchronizing"))
    else ok (answer (respond s.state name))

unfoldable pub handle_lookup : Server → Bytes → Bytes → Result Reply
unfolding reply_for
handle_lookup s path query_name =
    let name = trim_space query_name in
    if not (same path (codes "/lookup"))
    then ok (failure 404 (codes "not found"))
    else reply_for s name (valid_name name)

-- `strings.Contains(s, part)`, for a `part` that is not empty.
has_part : Bytes → Bytes → Bool
has_part [] part = false
has_part (c ∷ cs) part = starts_with part (c ∷ cs) || has_part cs part

unfoldable pub is_deep_reorg : Error → Bool
unfolding has_part
is_deep_reorg e = has_part (map to_lower (message e)) (codes "reorg exceeds maximum allowed depth")

-- What a scan leaves: the server, and the result of the scan.
abbrev pub Scanned : Type 0
Scanned = Server × Result (State × State × Bytes)

-- `rebuilt` is the result of `rebuildWallet`, `again` what the calls of a second scan answer.
unfoldable pub after_scan :
    Server → Result (Unit {0}) → Answers → Result (State × State × Bytes) → Scanned
after_scan s rebuilt again (err e) =
    if is_deep_reorg e then (record s { ready = false }, rebuilt >> scan_once again) else (s, err e)
after_scan s rebuilt again result = (s, result)

unfoldable pub scan : Server → Answers → Result (Unit {0}) → Answers → Scanned
unfolding after_scan
scan s first rebuilt again = after_scan s rebuilt again (scan_once first)

-- The snapshot is saved in one transaction of the store; then lookups see the scan.
unfoldable pub store_scan : Bytes → Result (Unit {0}) → Scanned → Server × Result (Unit {0})
store_scan address saved (s, err e) = (s, err e)
store_scan address saved (s, panic) = (s, panic)
store_scan address saved (s, stuck) = (s, stuck)
store_scan address (err e) (s, ok found) = (s, err e)
store_scan address panic (s, ok found) = (s, panic)
store_scan address stuck (s, ok found) = (s, stuck)
store_scan address (ok u) (s, ok (visible, durable, durable_hash)) = (
  record {
    state = visible;
    ready = true;
    stored = record {
      height = durable.height;
      block_hash = durable_hash;
      protocol_address = address;
      names = durable.names;
      events = durable.events;
    };
  },
  ok tt,
)

-- `locked` is the answer of `TryLock`, `saved` that of the store's `Save`.
unfoldable pub scan_and_store :
    Bool
    → Bytes
    → Server
    → Answers
    → Result (Unit {0})
    → Answers
    → Result (Unit {0})
    → Server × Result (Unit {0})
unfolding store_scan
scan_and_store false address s first rebuilt again saved = (s, ok tt)
scan_and_store true address s first rebuilt again saved =
    store_scan address saved (scan s first rebuilt again)

unfoldable pub snapshot_matches_chain : Snapshot → (ℕ → Result Bytes) → Result Bool
snapshot_matches_chain snap block_hash =
    if snap.height == 0 && length snap.names == 0 && length snap.events == 0
    then ok true
    else if snap.height == 0 || length snap.block_hash == 0
    then err no_anchor
    else (do hash ← block_hash snap.height; ok (same hash snap.block_hash))
