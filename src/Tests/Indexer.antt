-- ===== src/Tests/Indexer.antt =====
-- Runs of pkg/indexer/indexer.go.
use xns.Common.{
  ℕ, ◌≡◌, refl, true, false, some, List, [], ◌∷◌, map, codes, same, ok, arith, index, less,
  if◌then◌else◌, foreign,
}
use xns.Common.Int.{pos}
use xns.Common.Table.{get, put}
use xns.Hex
use xns.Hex.RoundTrip.{to_lower}
use xns.Protocol.{Payload, valid_name, is_name_char, years_from_amount}
use xns.Protocol.Names.{IsName}
use xns.Registry.{Entry, apply, apply_payload, claim}
use xns.Registry.Ledger.{Input, paid_total, apply_inputs}
use xns.TxSet.Shape.{payload_extra}
use xns.Indexer.{Transfer, Answers}
use xns.Indexer.Ordering.{
  sort_transfers, check_loop, contains, same_block_key, find_block, sort, insert, before, key_of,
}
use xns.Indexer.Scan.{
  payload_for_tx, extract_from, choose, decode_extra, replay_loop, replay_step, durable_height,
  scan_once,
}
use xns.Messages.{message}
use xns.TxSet.{starts_with}
use xns.Store.{Snapshot}
use xns.Indexer.Server.{
  respond, Server, answer, handle_lookup, reply_for, trim_space, is_deep_reorg,
}
use xns.Indexer.Storing.{snapshot_of}
use xns.Indexer.Owners.{OwnersAreKeys, scan_once-OwnersAreKeys}
use xns.Indexer.Replaying.{reads, scan_inputs, state_of, events_of, AreReplays, scan_once-state_of}
use xns.Indexer.Answering.{exact, respond-scan_once}
use xns.Tests.Data.{name, key, payload_bytes}
use xns.Tests.TxSet.{tx_key, payload_found}

abbrev pub payment : Transfer
payment = record {
  txid = codes "aa";
  height = 5;
  timestamp = 0;
  amount = 10_000_000_000;
  confirmations = 95;
  locked = false;
  kind = codes "in";
}

-- A payment that is too low, of a lower height.
abbrev pub low : Transfer
low = record payment { txid = codes "bb"; height = 3; amount = 5 }

-- A chain of 100 blocks with the two payments; every block holds both.
abbrev pub chain : Answers
chain = record {
  refresh = ok tt;
  wallet_height = ok 100;
  daemon_height = ok 100;
  tip_hash = λ h. ok (codes "ff");
  transfers = ok (payment ∷ low ∷ []);
  block = λ h. ok (record { hash = codes "cc"; tx_hashes = codes "aa" ∷ codes "bb" ∷ [] });
  transactions = λ txid. ok (record {
    status = codes "OK";
    txs =
        record {
          hash = txid;
          as_json = [];
          in_pool = false;
          relayed = true;
          block_height = if same txid (codes "aa") then 5 else 3;
        }
        ∷ [];
  });
  durable_hash = λ h. ok (codes "dd");
  end_hash = λ h. ok (codes "ff");
  keccak = λ bs. bs;
  parse_extra = λ bs. ok (map pos (payload_extra tx_key payload_bytes));
}

abbrev paid_name : Payload
paid_name = record {
  name = name;
  owner_key = map to_lower (Hex.encode key);
  payload_hex = Hex.encode payload_bytes;
}

high_found : payload_for_tx chain payment ≡ ok (some paid_name, [])
unfolding payload_for_tx extract_from choose decode_extra same index codes
high_found = rw payload_found

low_found : payload_for_tx chain low ≡ ok (some paid_name, [])
unfolding payload_for_tx extract_from choose decode_extra same index codes
low_found = rw payload_found

abbrev pub inputs : List Input
inputs =
    record { txid = codes "bb"; height = 3; amount = 5; payload = some paid_name; invalid = [] }
    ∷ record {
      txid = codes "aa";
      height = 5;
      amount = 10_000_000_000;
      payload = some paid_name;
      invalid = [];
    }
    ∷ []

inputs_run : scan_inputs chain ≡ ok inputs
unfolding scan_inputs sort_transfers check_loop contains same_block_key find_block sort insert
    before key_of reads same less codes Hex.decode
inputs_run = rw (low_found, high_found)

pub scan_run : scan_once chain ≡ ok (state_of 100 inputs, state_of 90 inputs, codes "dd")
unfolding scan_once sort_transfers check_loop contains same_block_key find_block sort insert before
    key_of replay_loop replay_step durable_height same less codes Hex.decode events_of apply_inputs
scan_run = rw (low_found, high_found)

scan_once-state_of_example :
    (height : ℕ) × (is : List Input) × (ok 100 ≡ ok height)
    × (scan_inputs chain ≡ ok is)
    × AreReplays height is (state_of 100 inputs) (state_of 90 inputs)
scan_once-state_of_example =
    scan_once-state_of chain (state_of 100 inputs) (state_of 90 inputs) (codes "dd") scan_run

abbrev entry : Entry
entry = record {
  name = name;
  owner_key = map to_lower (Hex.encode key);
  expiration_height = 262805;
  first_claim_height = 5;
  last_update_height = 5;
  source_txids = codes "aa" ∷ [];
}

entry_run : get (state_of 100 inputs).names name ≡ some entry
unfolding get put apply_inputs apply apply_payload claim same years_from_amount
entry_run = refl

respond-scan_once_example :
    IsName name × (respond (state_of 100 inputs) name ≡ exact 100 name entry)
respond-scan_once_example =
    respond-scan_once chain (state_of 100 inputs) (state_of 90 inputs) (codes "dd") name inputs
      entry scan_run inputs_run (unfold paid_total in omega arith) entry_run

scan_once-OwnersAreKeys_example :
    OwnersAreKeys (state_of 100 inputs) × OwnersAreKeys (state_of 90 inputs)
scan_once-OwnersAreKeys_example =
    scan_once-OwnersAreKeys chain (state_of 100 inputs) (state_of 90 inputs) (codes "dd") scan_run

abbrev empty_snapshot : Snapshot
empty_snapshot = record {
  height = 0;
  block_hash = [];
  protocol_address = [];
  names = [];
  events = [];
}

-- The server at its start, and after a scan of the chain.
abbrev fresh : Server
fresh = record { state = state_of 0 []; ready = false; stored = empty_snapshot }

abbrev scanned : Server
scanned = record { state = state_of 100 inputs; ready = true; stored = empty_snapshot }

-- A reorganisation that is too deep makes the server scan again.
reorg_run :
    is_deep_reorg (foreign (codes "rpc error -1: Reorg exceeds maximum allowed depth")) ≡ true
unfolding is_deep_reorg message codes starts_with to_lower
reorg_run = refl

lookup_run :
    handle_lookup scanned (codes "/lookup") (codes " a-1 ")
    ≡ ok (answer (respond (state_of 100 inputs) name))
unfolding handle_lookup reply_for trim_space same codes valid_name is_name_char index
lookup_run = refl

pub found_run : (respond (state_of 100 inputs) name).found ≡ true
unfolding respond
found_run = rw (entry_run, respond) refl

-- What the scan stored, against the same chain.
abbrev stored : Snapshot
stored = snapshot_of (codes "P") (state_of 90 inputs) (codes "dd")
