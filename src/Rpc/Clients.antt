-- ===== src/Rpc/Clients.antt =====
-- pkg/monero/rpc.go: the clients of a wallet and of the daemon, and the requests of their calls.
use xns.Common.{ℕ, List, [], ◌∷◌, ◌++◌, Bool, Bytes, codes, Result, ok, ◌>>=◌, trim_right}
use xns.Indexer.{Block, TransactionsReply}
use xns.Rpc
use xns.Rpc.{Response, Json, BlockAnswer}

-- What a request is made of, as `map[string]any`; json.Marshal puts the fields of an object in the
-- order of their names.
mutual
  pub data Value : Type 0 where
    string : Bytes → Value
    number : ℕ → Value
    boolean : Bool → Value
    array : Items → Value
    object : Fields → Value

  pub data Items : Type 0 where
    no_items : Items
    item : Value → Items → Items

  pub data Fields : Type 0 where
    no_fields : Fields
    field : Bytes → Value → Fields → Fields

-- `json.Marshal`, and what `http.Client.Post` and the reading of the body give for a URL and a text.
pub record Http : Type 0 where
  pub marshal : Value → Result Bytes
  pub send : Bytes → Bytes → Result Response

pub record WalletClient : Type 0 where
  pub url : Bytes

pub record DaemonClient : Type 0 where
  pub url : Bytes

abbrev pub new_wallet : Bytes → WalletClient
new_wallet url = record { url = trim_right b'/' url }

abbrev pub new_daemon : Bytes → DaemonClient
new_daemon url = record { url = trim_right b'/' url }

unfoldable pub post : Http → Bytes → Value → Result Response
post http url body = do raw ← http.marshal body; http.send url raw

abbrev pub rpc_body : Bytes → Value → Value
rpc_body method params = object (
    field (codes "jsonrpc") (string (codes "2.0")) (
      field (codes "id") (string (codes "0"))
        (field (codes "method") (string method) (field (codes "params") params no_fields))))

-- The call of a method whose result is read by `decode`.
unfoldable pub wallet_call :
    {A : Type 0} → Http → Json → WalletClient → Bytes → Value → (Bytes → Result A) → Result A
wallet_call http json c method params decode =
    Rpc.call json (post http (c.url ++ codes "/json_rpc") (rpc_body method params)) decode

unfoldable pub daemon_height : Http → Json → DaemonClient → Result ℕ
daemon_height http json c =
    Rpc.get_height json (post http (c.url ++ codes "/get_height") (object no_fields))

abbrev pub strings : List Bytes → Items
strings [] = no_items
strings (s ∷ rest) = item (string s) (strings rest)

unfoldable pub daemon_transactions :
    Http → Json → DaemonClient → List Bytes → Bool → Result TransactionsReply
daemon_transactions http json c txids decode = Rpc.get_transactions json (
    post http (c.url ++ codes "/gettransactions") (
      object (
        field (codes "txs_hashes") (array (strings txids))
          (field (codes "decode_as_json") (boolean decode) no_fields))))

abbrev pub block_params : ℕ → Value
block_params height = object (field (codes "height") (number height) no_fields)

unfoldable pub daemon_block : Http → Json → DaemonClient → ℕ → Result Block
daemon_block http json c height =
    Rpc.block json
      (post http (c.url ++ codes "/json_rpc") (rpc_body (codes "get_block") (block_params height)))
      height

unfoldable pub daemon_block_hash : Http → Json → DaemonClient → ℕ → Result Bytes
daemon_block_hash http json c height = do b ← daemon_block http json c height; ok b.hash
