-- ===== src/Tests/Lookup.antt =====
-- Runs of pkg/lookup/lookup.go, of the flags in cmd/xns/main.go and of the daemon's calls in pkg/monero/rpc.go.
use xns.Common.{
  trim_right, replicate, ◌++◌, ◌≡◌, ◌≢◌, ◌↔◌, refl, [], ◌∷◌, Bytes, codes, same, index, Result, ok,
  err, foreign, none, if◌then◌else◌,
}
use xns.Common.{List, flag_required}
use xns.Command.{is_set, require_flags}
use xns.Protocol.{valid_name, is_name_char}
use xns.Protocol.Names.{IsName}
use xns.Rpc.{Response, BlockAnswer, Json, do_post, block}
use xns.Rpc.Answers.{IsBlock}
use xns.Rpc.Clients.{Http, post, new_daemon, daemon_block}
use xns.Rpc.Requests.{Exchanged, rpc_url, get_block_request, daemon_block_iff}
use xns.Lookup.{Config, run, lookup_url, query_escape, is_unreserved}
use xns.Lookup.Requests.{IsAnswered, run_iff}

abbrev some_json : Json
some_json = record {
  call_answer = λ text. ok (record { result = text; error = none });
  height_answer = λ text. ok (record { height = 5; status = codes "OK" });
  block_answer = λ text.
      ok (record { status = codes "OK"; hash = text; tx_hashes = codes "t" ∷ []; error = none });
  transactions_answer = λ text. err (foreign text);
}

abbrev reply : Response
reply = record { status_code = 200; status = codes "200 OK"; body = codes "h" }

block_run :
    block some_json (ok reply) 5 ≡ ok (record { hash = codes "h"; tx_hashes = codes "t" ∷ [] })
unfolding block do_post same codes
block_run = refl

-- Every body becomes the same text, and a server answers at one URL.
abbrev wire : Http
wire = record {
  marshal = λ body. ok (codes "{}");
  send = λ url raw.
      if same url (codes "http://d/json_rpc") then ok reply else err (foreign (codes "no route"));
}

daemon_block_run :
    daemon_block wire some_json (new_daemon (codes "http://d//")) 5
    ≡ ok (record { hash = codes "h"; tx_hashes = codes "t" ∷ [] })
unfolding daemon_block post trim_right block do_post same codes
daemon_block_run = refl

daemon_block_iff_example :
    (daemon_block wire some_json (new_daemon (codes "http://d" ++ replicate 2 b'/')) 5
      ≡ ok (record { hash = codes "h"; tx_hashes = codes "t" ∷ [] }))
    ↔ ((out : BlockAnswer) × Exchanged wire some_json.block_answer
          (rpc_url (codes "http://d"))
          (get_block_request 5)
          out
        × IsBlock out (record { hash = codes "h"; tx_hashes = codes "t" ∷ [] }))
daemon_block_iff_example =
    daemon_block_iff wire some_json (codes "http://d") 2 5
      (record { hash = codes "h"; tx_hashes = codes "t" ∷ [] })

abbrev request : Config
request = record { indexer = codes "http://i//"; name = codes "a-1" }

-- An indexer that knows one URL.
abbrev server : Bytes → Result Response
server url =
    if same url (codes "http://i/lookup?name=a-1")
    then ok reply
    else err (foreign (codes "no route"))

run_found : run server request ≡ ok (codes "h")
unfolding run lookup_url query_escape trim_right is_unreserved valid_name is_name_char same codes
    index
run_found = refl

run_iff_example :
    (run server request ≡ ok (codes "h"))
    ↔ ((codes "http://i//" ≢ []) × IsName (codes "a-1") × IsAnswered server request (codes "h"))
run_iff_example = run_iff server request (codes "h")

abbrev given : List Bytes
given = codes "data-dir" ∷ codes "node" ∷ []

abbrev needed : List Bytes
needed = codes "node" ∷ codes "listen" ∷ codes "data-dir" ∷ []

-- The second of three flags is missing.
require_flags_run : require_flags given needed ≡ err (flag_required (codes "listen"))
unfolding require_flags is_set same codes
require_flags_run = refl
