-- ===== src/Rpc/Requests.antt =====
-- When a call over the clients of pkg/monero/rpc.go gives a result, from the URL on.
use xns.Common.{
  ℕ, ◌≡◌, ◌↔◌, refl, ◌++◌, none, Bytes, codes, replicate, Result, ok, >>=-eq-ok, trim_right,
  trim_right-replicate,
}
use xns.Indexer.{Block}
use xns.Rpc.{BlockAnswer, CallAnswer, Json, call, do_post, no_error}
use xns.Rpc.Answers.{Answered, IsBlock, block_iff, do_post-Answered, no_error-none}
use xns.Rpc.Clients.{
  Value, Http, new_wallet, new_daemon, post, rpc_body, string, number, object, no_fields, field,
  wallet_call, daemon_block,
}

-- The body becomes a text, the text is sent to the URL, and the response has a status of success and
-- JSON that is read as this answer.
abbrev pub Exchanged : {A : Type 0} → Http → (Bytes → Result A) → Bytes → Value → A → Type 0
Exchanged http decode url body out =
    (raw : Bytes) × (http.marshal body ≡ ok raw) × Answered decode (http.send url raw) out

Answered-post :
    {A : Type 0} (http : Http) (decode : Bytes → Result A) (url : Bytes) (body : Value) (out : A)
    → Answered decode (post http url body) out ↔ Exchanged http decode url body out
unfolding post
Answered-post http decode url body out = (
  λ (resp, e, low, high, d).
      let (raw, m, sent) = >>=-eq-ok (http.marshal body) _ e in
      (raw, m, (resp, sent, low, high, d)),
  λ (raw, m, (resp, sent, low, high, d)). (resp, rw (m, sent) refl, low, high, d),
)

-- The URL of a method, whatever slashes the address of the server ends in.
abbrev pub rpc_url : Bytes → Bytes
rpc_url url = trim_right b'/' url ++ codes "/json_rpc"

-- What is asked for a block: version 2.0 of JSON-RPC, an id, the method get_block, and the height.
abbrev pub get_block_request : ℕ → Value
get_block_request height = object (
    field (codes "jsonrpc") (string (codes "2.0")) (
      field (codes "id") (string (codes "0")) (
        field (codes "method") (string (codes "get_block")) (
          field (codes "params") (object (field (codes "height") (number height) no_fields))
            no_fields))))

-- Whatever number of slashes ends the address of the daemon, DaemonClient.Block gives a block exactly
-- if the object of the fields jsonrpc, id and method, which are 2.0, 0 and get_block, and params with
-- that height can be marshalled and the answer, to a request of it at the address without slashes at
-- its end and `/json_rpc`, has a status from 200 to 299 and JSON without an error, with the status OK
-- and a hash that is not empty, and the block is that hash and the hashes of the transactions.
pub daemon_block_iff :
    (http : Http) (json : Json) (url : Bytes) (slashes height : ℕ) (b : Block)
    → (daemon_block http json (new_daemon (url ++ replicate slashes b'/')) height ≡ ok b) ↔ (
        (out : BlockAnswer) × Exchanged http json.block_answer
          (rpc_url url)
          (get_block_request height)
          out
        × IsBlock out b)
unfolding daemon_block
daemon_block_iff http json url slashes height b =
    let body = get_block_request height in
    let exact = block_iff json (post http (rpc_url url) body) height b in
    rw (trim_right-replicate b'/' url slashes) (
      λ h.
          let (out, answered, is_block) = exact.0 h in
          (out, (Answered-post http json.block_answer (rpc_url url) body out).0 answered, is_block),
      λ (out, exchanged, is_block). exact.1 (
        out,
        (Answered-post http json.block_answer (rpc_url url) body out).1 exchanged,
        is_block,
      ),
    )

-- Whatever number of slashes ends the address of the wallet, WalletClient.Call gives a result exactly
-- if the body of the method and its parameters can be marshalled and the answer, to a request of that
-- body at the address without slashes at its end and `/json_rpc`, has a status from 200 to 299 and
-- JSON without an error, whose result is read as the one that is given.
pub wallet_call_iff :
    {A : Type 0} (http : Http) (json : Json) (url : Bytes) (slashes : ℕ) (method : Bytes)
    (params : Value) (decode : Bytes → Result A) (a : A)
    → (wallet_call http json (new_wallet (url ++ replicate slashes b'/')) method params decode
        ≡ ok a)
      ↔ ((out : CallAnswer) × Exchanged http json.call_answer
            (rpc_url url)
            (rpc_body method params)
            out
          × (out.error ≡ none)
          × (decode out.result ≡ ok a))
unfolding wallet_call call
wallet_call_iff http json url slashes method params decode a =
    let body = rpc_body method params in
    let sent = post http (rpc_url url) body in
    rw (trim_right-replicate b'/' url slashes) (
      λ h.
          let (out, e, h1) = >>=-eq-ok (do_post sent json.call_answer) _ h in
          let (u, n, d) = >>=-eq-ok (no_error out.error) _ h1 in
          let answered = (do_post-Answered json.call_answer sent out).0 e in
          (
            out,
            (Answered-post http json.call_answer (rpc_url url) body out).0 answered,
            no_error-none out.error u n,
            d,
          ),
      λ (out, exchanged, n, d).
          let answered = (Answered-post http json.call_answer (rpc_url url) body out).1 exchanged in
          rw ((do_post-Answered json.call_answer sent out).1 answered, n, d) refl,
    )
