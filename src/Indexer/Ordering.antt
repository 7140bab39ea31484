-- ===== src/Indexer/Ordering.antt =====
-- `sortTransfers`: the transfers in the order in which they take effect.
use xns.Common.{
  ℕ, Bool, true, false, ◌||◌, not, Option, none, some, List, [], ◌∷◌, ◌++◌, Bytes, same, less,
  Result, ok, check, ◌>>=◌, ◌>>◌, transfer_height, transfer_not_in_block, ltb, leb, ◌==◌,
  if◌then◌else◌,
}
use xns.Common.Table
use xns.Common.Table.{Table}
use xns.Hex
use xns.Indexer.{Transfer, Block, Answers}

-- `map[uint64]monero.Block`
abbrev pub Blocks : Type 0
Blocks = List (ℕ × Block)

unfoldable pub find_block : Blocks → ℕ → Option Block
find_block [] h = none
find_block ((h', b) ∷ blocks) h = if h' == h then some b else find_block blocks h

unfoldable pub contains : List Bytes → Bytes → Bool
contains [] want = false
contains (value ∷ values) want = if same value want then true else contains values want

-- A transaction hash in hexadecimal is hashed as bytes, any other text as it is.
tx_hash : Result Bytes → Bytes → Bytes
tx_hash (ok raw) txid = raw
tx_hash _ txid = txid

unfoldable pub same_block_key : (Bytes → Bytes) → Bytes → Bytes → Bytes
unfolding tx_hash
same_block_key keccak block_hash txid = keccak (block_hash ++ tx_hash (Hex.decode txid) txid)

-- The block of a transfer, from the map or from the daemon, which then stands in the map.
unfoldable pub fetch_block : Answers → Blocks → ℕ → Result (Blocks × Block)
fetch_block w blocks h = elim (find_block blocks h) [
  | some b ↦ ok (blocks, b)
  | none ↦ do b ← w.block h; ok ((h, b) ∷ blocks, b)
]

-- The first key of a transaction stays.
unfoldable pub add_key : Table Bytes → Bytes → Bytes → Table Bytes
add_key keys txid key = elim (Table.get keys txid) [
  | some _ ↦ keys
  | none ↦ Table.put keys txid key
]

-- The loop over the transfers before they are sorted.
unfoldable pub check_loop :
    Answers → ℕ → List Transfer → Blocks → Table Bytes → Result (Blocks × Table Bytes)
unfolding fetch_block add_key
check_loop w wallet_height [] blocks keys = ok (blocks, keys)
check_loop w wallet_height (t ∷ ts) blocks keys = do
  check (not (t.height == 0 || leb wallet_height t.height))
      (transfer_height t.txid t.height wallet_height)
  (blocks', block) ← fetch_block w blocks t.height
  check (contains block.tx_hashes t.txid) (transfer_not_in_block t.txid t.height)
  raw ← Hex.decode block.hash
  check_loop w wallet_height ts blocks' (add_key keys t.txid (same_block_key w.keccak raw t.txid))

-- A transaction without a key has Go's nil.
unfoldable pub key_of : Table Bytes → Bytes → Bytes
key_of keys txid = elim (Table.get keys txid) [ some key ↦ key | none ↦ [] ]

-- The comparison that is handed to `sort.Slice`.
unfoldable pub before : Table Bytes → Transfer → Transfer → Bool
before keys t u =
    if not (t.height == u.height)
    then ltb t.height u.height
    else if less (key_of keys t.txid) (key_of keys u.txid)
    then true
    else if less (key_of keys u.txid) (key_of keys t.txid)
    then false
    else less t.txid u.txid

-- `sort.Slice` gives some ascending order; this one keeps the order of equals.
unfoldable pub insert : Table Bytes → Transfer → List Transfer → List Transfer
insert keys t [] = t ∷ []
insert keys t (u ∷ us) = if before keys u t then u ∷ insert keys t us else t ∷ u ∷ us

unfoldable pub sort : Table Bytes → List Transfer → List Transfer
unfolding insert
sort keys [] = []
sort keys (t ∷ ts) = insert keys t (sort keys ts)

unfoldable pub sort_transfers : Answers → ℕ → List Transfer → Result (Blocks × List Transfer)
sort_transfers w wallet_height transfers = do
  (blocks, keys) ← check_loop w wallet_height transfers [] []
  ok (blocks, sort keys transfers)
