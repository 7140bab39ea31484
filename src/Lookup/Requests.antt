-- ===== src/Lookup/Requests.antt =====
-- What a lookup asks for, and when it gives an answer.
use xns.Common.{
  trim_right, ◌≤◌, ◌≡◌, ◌≢◌, ◌↔◌, refl, sym, ap, ◌∙◌, true, [], ◌∷◌, ◌++◌, Bytes, codes, Result, ok,
  check, check→true, ok-injective, >>=-eq-ok, leb, ◌&&◌, not, length, ◌==◌, All, arith,
  nonempty_iff,
}
use xns.Protocol.{is_name_char, valid_name}
use xns.Protocol.Names.{IsName, chars-IsName, valid_name_iff}
use xns.Rpc.{Response}
use xns.Lookup.{Config, is_unreserved, query_escape, lookup_url, run}

-- The characters of names need no escape.
query_escape-name :
    (name : Bytes) → All (λ c. is_name_char c ≡ true) name → query_escape name ≡ name
unfolding query_escape is_unreserved is_name_char
query_escape-name [] h = refl
query_escape-name (c ∷ cs) (p, h) =
    let plain : is_unreserved c ≡ true = ground (arith, p) in
    rw (plain, query_escape-name cs h) refl

-- The URL of a name, with the name as it is.
abbrev pub plain_url : Config → Bytes
plain_url cfg = trim_right b'/' cfg.indexer ++ codes "/lookup?name=" ++ cfg.name

abbrev pub IsAnswered : (Bytes → Result Response) → Config → Bytes → Type 0
IsAnswered get cfg text =
    (resp : Response) × (get (plain_url cfg) ≡ ok resp)
    × (200 ≤ resp.status_code)
    × (resp.status_code ≤ 299)
    × (resp.body ≡ text)

lookup_url-plain : (cfg : Config) → IsName cfg.name → lookup_url cfg ≡ plain_url cfg
unfolding lookup_url
lookup_url-plain cfg h = rw (query_escape-name cfg.name (chars-IsName cfg.name h)) refl

-- A lookup gives a text exactly if an indexer is given, the name is allowed, and the answer to the
-- request of the indexer's URL, without slashes at its end, then `/lookup?name=` and the name as it
-- is, has a status from 200 to 299 and that text as its body.
pub run_iff :
    (get : Bytes → Result Response) (cfg : Config) (text : Bytes)
    → (run get cfg ≡ ok text) ↔ ((cfg.indexer ≢ []) × IsName cfg.name × IsAnswered get cfg text)
unfolding run
run_iff get cfg text = (
  λ h.
      let (_, i, h1) = >>=-eq-ok (check (not (length cfg.indexer == 0)) _) _ h in
      let (u, v, h2) = >>=-eq-ok (valid_name cfg.name) _ h1 in
      let (resp, g, h3) = >>=-eq-ok (get (lookup_url cfg)) _ h2 in
      let (_, c, h4) =
        >>=-eq-ok (check (leb 200 resp.status_code && leb resp.status_code 299) _) _ h3 in
      let inside = check→true (leb 200 resp.status_code && leb resp.status_code 299) _ c in
      let named = (valid_name_iff cfg.name).0 v in
      (
        (nonempty_iff cfg.indexer).0 (check→true _ _ i),
        named,
        (
          resp,
          ap get (sym (lookup_url-plain cfg named)) ∙ g,
          ground (arith, inside),
          ground (arith, inside),
          ok-injective h4,
        ),
      ),
  λ (i, named, (resp, g, low, high, e)).
      let inside : (leb 200 resp.status_code && leb resp.status_code 299) ≡ true =
        ground (arith, low, high) in
      rw
        (
          (nonempty_iff cfg.indexer).1 i,
          (valid_name_iff cfg.name).1 named,
          lookup_url-plain cfg named,
          g,
          inside,
          e,
        )
        refl,
)
