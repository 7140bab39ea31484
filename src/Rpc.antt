-- ===== src/Rpc.antt =====
-- pkg/monero/rpc.go: the calls of a wallet and of the daemon, over the answers of net/http.
pub mod Answers
pub mod Clients
pub mod Requests
use xns.Common.{
  ℕ, List, Bool, Option, none, some, Bytes, codes, same, Error, Result, ok, err, panic, stuck,
  check, ◌>>=◌, ◌>>◌, leb, ◌&&◌, not, length, ◌==◌, http_status, decode_response, rpc_error,
  height_status, block_status, empty_block_hash,
}
use xns.Common.Int.{ℤ}
use xns.Messages.{message}
use xns.Indexer.{Block, TransactionsReply}

-- `http.Response` with its body.
pub record Response : Type 0 where
  pub status_code : ℕ
  pub status : Bytes
  pub body : Bytes

pub record RpcError : Type 0 where
  pub code : ℤ
  pub text : Bytes

-- The JSON of a wallet's answer: the text of the result, and the error where it is not null.
pub record CallAnswer : Type 0 where
  pub result : Bytes
  pub error : Option RpcError

pub record HeightAnswer : Type 0 where
  pub height : ℕ
  pub status : Bytes

pub record BlockAnswer : Type 0 where
  pub status : Bytes
  pub hash : Bytes
  pub tx_hashes : List Bytes
  pub error : Option RpcError

-- `json.Unmarshal` of an answer's text, for each type that the calls read.
pub record Json : Type 0 where
  pub call_answer : Bytes → Result CallAnswer
  pub height_answer : Bytes → Result HeightAnswer
  pub block_answer : Bytes → Result BlockAnswer
  pub transactions_answer : Bytes → Result TransactionsReply

-- `fmt.Errorf("decode rpc response: %w: %s", err, data)`
abbrev pub wrap_decode : {A : Type 0} → Bytes → Result A → Result A
wrap_decode body (ok a) = ok a
wrap_decode body (err e) = err (decode_response (message e) body)
wrap_decode body panic = panic
wrap_decode body stuck = stuck

-- What follows the request and the reading of its answer.
unfoldable pub do_post : {A : Type 0} → Result Response → (Bytes → Result A) → Result A
do_post sent decode = do
  resp ← sent
  check (leb 200 resp.status_code && leb resp.status_code 299) (http_status resp.status resp.body)
  wrap_decode resp.body (decode resp.body)

-- `if out.Error != nil { return out.Error }`
abbrev pub no_error : Option RpcError → Result (Unit {0})
no_error none = ok tt
no_error (some e) = err (rpc_error e.code e.text)

-- `decode` reads a result of the caller's type from its JSON; a caller without a result takes `ok tt`.
unfoldable pub call : {A : Type 0} → Json → Result Response → (Bytes → Result A) → Result A
call json sent decode = do
  out ← do_post sent json.call_answer
  no_error out.error
  decode out.result

unfoldable pub get_height : Json → Result Response → Result ℕ
get_height json sent = do
  out ← do_post sent json.height_answer
  check (same out.status (codes "OK")) (height_status out.status)
  ok out.height

unfoldable pub get_transactions : Json → Result Response → Result TransactionsReply
get_transactions json sent = do_post sent json.transactions_answer

unfoldable pub block : Json → Result Response → ℕ → Result Block
block json sent height = do
  out ← do_post sent json.block_answer
  no_error out.error
  check (same out.status (codes "OK")) (block_status out.status)
  check (not (length out.hash == 0)) (empty_block_hash height)
  ok (record { hash = out.hash; tx_hashes = out.tx_hashes })

unfoldable pub block_hash : Json → Result Response → ℕ → Result Bytes
block_hash json sent height = do b ← block json sent height; ok b.hash
