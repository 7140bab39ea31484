-- ===== src/Lookup.antt =====
-- pkg/lookup/lookup.go: a lookup at an indexer.
pub mod Requests
use xns.Common.{
  ℕ, ◌+◌, ◌-◌, ◌/◌, ◌%◌, Bool, true, false, List, [], ◌∷◌, ◌++◌, Bytes, codes, Result, ok, check,
  ◌>>=◌, ◌>>◌, leb, ltb, ◌&&◌, ◌||◌, not, length, ◌==◌, trim_right, if◌then◌else◌, indexer_required,
  foreign,
}
use xns.Protocol.{valid_name}
use xns.Indexer.Server.{trim_space}
use xns.Rpc.{Response}

pub record Config : Type 0 where
  pub indexer : Bytes
  pub name : Bytes

-- `url.QueryEscape`: letters, digits and four signs stay, a space is a plus, and the rest is in hexadecimal.
unfoldable pub is_unreserved : ℕ → Bool
is_unreserved c =
    leb b'a' c && leb c b'z'
    || leb b'A' c && leb c b'Z'
    || leb b'0' c && leb c b'9'
    || (c == b'-' || c == b'_' || c == b'.' || c == b'~')

abbrev pub upper_digit : ℕ → ℕ
upper_digit n = if ltb n 10 then b'0' + n else b'A' + (n - 10)

unfoldable pub query_escape : Bytes → Bytes
query_escape [] = []
query_escape (c ∷ cs) =
    (if is_unreserved c
      then c ∷ []
      else if c == b' '
      then b'+' ∷ []
      else b'%' ∷ upper_digit (c / 16) ∷ upper_digit (c % 16) ∷ [])
    ++ query_escape cs

unfoldable pub lookup_url : Config → Bytes
lookup_url cfg = trim_right b'/' cfg.indexer ++ codes "/lookup?name=" ++ query_escape cfg.name

-- `get` is what `http.Get` and the reading of the body give.
unfoldable pub run : (Bytes → Result Response) → Config → Result Bytes
run get cfg = do
  check (not (length cfg.indexer == 0)) indexer_required
  valid_name cfg.name
  resp ← get (lookup_url cfg)
  check (leb 200 resp.status_code && leb resp.status_code 299) (foreign (trim_space resp.body))
  ok resp.body
