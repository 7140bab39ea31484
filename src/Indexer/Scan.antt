-- ===== src/Indexer/Scan.antt =====
-- `scanOnce`, `payloadForTx` and what they use.
use xns.Common.{
  ℕ, ◌+◌, ◌-◌, true, false, ◌&&◌, ◌||◌, not, Option, none, some, List, [], ◌∷◌, ◌++◌, Bytes, codes,
  same, Result, ok, err, panic, stuck, check, index, ◌>>=◌, ◌>>◌, extra_byte_range, wallet_height,
  chain_changed, transaction_status, transaction_count, transaction_mismatch, length, ltb, leb,
  ◌==◌, if◌then◌else◌,
}
use xns.Common.Int.{ℤ, pos, negsuc}
use xns.Messages.{message}
use xns.Protocol.{Payload}
use xns.Extra.{extract_payloads}
use xns.Registry.{Event, Registry, new_registry, apply}
use xns.Indexer.{Transfer, Answers, State}
use xns.Indexer.Ordering.{Blocks, find_block, sort_transfers}

-- The loop of `DecodeExtra`, from the index `i` on.
unfoldable pub bytes_of : List ℤ → ℕ → Result Bytes
bytes_of [] i = ok []
bytes_of (negsuc k ∷ ns) i = err (extra_byte_range i)
bytes_of (pos n ∷ ns) i =
    let rest = bytes_of ns (i + 1) in
    if ltb 255 n then err (extra_byte_range i) else (do bs ← rest; ok (n ∷ bs))

unfoldable pub decode_extra : Answers → Bytes → Result Bytes
unfolding bytes_of
decode_extra w as_json = do ns ← w.parse_extra as_json; bytes_of ns 0

-- The payload, or the reason why there is none.
abbrev pub Found : Type 0
Found = Option Payload × Bytes

abbrev pub no_payload : Bytes → Result Found
no_payload reason = ok (none, reason)

-- One payload is wanted, no more and no less.
unfoldable pub choose : Result (List Payload) → Result Found
choose (err e) = no_payload (message e)
choose panic = panic
choose stuck = stuck
choose (ok []) = no_payload (codes "missing XNS payload")
choose (ok (p ∷ [])) = ok (some p, [])
choose (ok (p ∷ q ∷ ps)) = no_payload (codes "multiple XNS payloads")

unfoldable pub extract_from : Result Bytes → Result Found
unfolding choose
extract_from (ok extra) = choose (extract_payloads extra)
extract_from (err e) = no_payload (message e)
extract_from panic = panic
extract_from stuck = stuck

unfoldable pub payload_for_tx : Answers → Transfer → Result Found
unfolding extract_from
payload_for_tx w t = do
  reply ← w.transactions t.txid
  check (same reply.status (codes "OK")) (transaction_status reply.status t.txid)
  check (length reply.txs == 1) (transaction_count (length reply.txs) t.txid)
  tx ← index reply.txs 0
  check (same tx.hash t.txid && not tx.in_pool && tx.block_height == t.height)
      (transaction_mismatch t.txid)
  extract_from (decode_extra w tx.as_json)

-- The registries and the events of a replay, visible and durable.
pub record Replay : Type 0 where
  pub visible : Registry
  pub durable : Registry
  pub visible_events : List Event
  pub durable_events : List Event

abbrev pub start : Replay
start = record {
  visible = new_registry;
  durable = new_registry;
  visible_events = [];
  durable_events = [];
}

-- One transfer of the loop, with what was found in it; `limit` is the durable height.
unfoldable pub replay_step : ℕ → Transfer → Found → Replay → Replay
replay_step limit t (payload, invalid) r =
    let (visible, event) = apply r.visible t.txid t.height t.amount payload invalid in
    let (durable, durable_event) = apply r.durable t.txid t.height t.amount payload invalid in
    if leb t.height limit
    then record {
      visible = visible;
      durable = durable;
      visible_events = r.visible_events ++ event ∷ [];
      durable_events = r.durable_events ++ durable_event ∷ [];
    }
    else record r { visible = visible; visible_events = r.visible_events ++ event ∷ [] }

unfoldable pub replay_loop : Answers → ℕ → List Transfer → Replay → Result Replay
replay_loop w limit [] r = ok r
replay_loop w limit (t ∷ ts) r = do
  found ← payload_for_tx w t
  replay_loop w limit ts (replay_step limit t found r)

unfoldable pub durable_height : ℕ → ℕ → ℕ
durable_height height confs = if leb height confs then 0 else height - confs

-- The hash at the durable height, from the map or from the daemon.
pub hash_at : Answers → Blocks → ℕ → Result Bytes
hash_at w blocks durable = elim (ltb 0 durable) [
  | false ↦ ok []
  | true ↦ elim (find_block blocks durable) [ some b ↦ ok b.hash | none ↦ w.durable_hash durable ]
]

unfoldable pub scan_once : Answers → Result (State × State × Bytes)
unfolding hash_at
scan_once w = do
  w.refresh
  height ← w.wallet_height
  daemon ← w.daemon_height
  check (not (height == 0 || ltb daemon height)) (wallet_height height daemon)
  let tip = height - 1
  tip_hash ← w.tip_hash tip
  transfers ← w.transfers
  (blocks, ordered) ← sort_transfers w height transfers
  let durable = durable_height height 10
  r ← replay_loop w durable ordered start
  durable_hash ← hash_at w blocks durable
  end_hash ← w.end_hash tip
  check (same end_hash tip_hash) chain_changed
  ok (
    record { height = height; events = r.visible_events; names = r.visible.names },
    record { height = durable; events = r.durable_events; names = r.durable.names },
    durable_hash,
  )
