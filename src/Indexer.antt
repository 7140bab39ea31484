-- ===== src/Indexer.antt =====
-- pkg/indexer/indexer.go: a scan of the chain and the answers to lookups. The data are here, with
-- those of pkg/monero/rpc.go that a scan reads.
pub mod Ordering
pub mod Scan
pub mod Server
pub mod Order
pub mod Replaying
pub mod Answering
pub mod Inputs
pub mod Owners
pub mod Storing
pub mod Anchor
pub mod Decoding
pub mod Reload
pub mod Process
pub mod Start
pub mod Run
pub mod Shuffle
pub mod Independence
pub mod Concurrent
use xns.Common.{ℕ, Bool, List, Bytes, Result}
use xns.Common.Int.{ℤ}
use xns.Common.Table.{Table}
use xns.Registry.{Event, Entry}

pub record Transfer : Type 0 where
  pub txid : Bytes
  pub height : ℕ
  pub timestamp : ℕ
  pub amount : ℕ
  pub confirmations : ℕ
  pub locked : Bool
  pub kind : Bytes

pub record Block : Type 0 where
  pub hash : Bytes
  pub tx_hashes : List Bytes

pub record Tx : Type 0 where
  pub hash : Bytes
  pub as_json : Bytes
  pub in_pool : Bool
  pub relayed : Bool
  pub block_height : ℕ

pub record TransactionsReply : Type 0 where
  pub status : Bytes
  pub txs : List Tx

-- What the wallet and the daemon answer to the calls of one scan, each with its value or an error:
-- the chain may change between the two readings of the tip. `keccak` is the hash of
-- golang.org/x/crypto, `parse_extra` reads the extra field of a transaction's JSON as numbers.
pub record Answers : Type 0 where
  pub refresh : Result (Unit {0})
  pub wallet_height : Result ℕ
  pub daemon_height : Result ℕ
  pub tip_hash : ℕ → Result Bytes
  pub transfers : Result (List Transfer)
  pub block : ℕ → Result Block
  pub transactions : Bytes → Result TransactionsReply
  pub durable_hash : ℕ → Result Bytes
  pub end_hash : ℕ → Result Bytes
  pub keccak : Bytes → Bytes
  pub parse_extra : Bytes → Result (List ℤ)

-- The time of the update is left out.
pub record State : Type 0 where
  pub height : ℕ
  pub events : List Event
  pub names : Table Entry
