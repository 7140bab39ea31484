-- ===== src/Rpc/Answers.antt =====
-- When the daemon's answer gives a block.
use xns.Common.{
  ℕ, ◌≤◌, ◌≡◌, ◌≢◌, ◌↔◌, refl, sym, true, Option, none, some, [], Bytes, codes, same, same_iff,
  Result, ok, err, panic, stuck, check, check→true, ok-injective, >>=-eq-ok, leb, ◌&&◌, not, length,
  ◌==◌, arith, nonempty_iff,
}
use xns.Indexer.{Block}
use xns.Rpc.{Response, RpcError, BlockAnswer, Json, wrap_decode, do_post, no_error, block}

-- The response has a status of success, and its JSON is this answer.
abbrev pub Answered : {A : Type 0} → (Bytes → Result A) → Result Response → A → Type 0
Answered decode sent out =
    (resp : Response) × (sent ≡ ok resp)
    × (200 ≤ resp.status_code)
    × (resp.status_code ≤ 299)
    × (decode resp.body ≡ ok out)

abbrev pub IsBlock : BlockAnswer → Block → Type 0
IsBlock out b =
    (out.error ≡ none)
    × (out.status ≡ codes "OK")
    × (out.hash ≢ [])
    × (b ≡ record { hash = out.hash; tx_hashes = out.tx_hashes })

wrap_decode-ok :
    {A : Type 0} (body : Bytes) (r : Result A) (a : A) → wrap_decode body r ≡ ok a → r ≡ ok a
wrap_decode-ok body (ok x) a h = h
wrap_decode-ok body (err e) a h = cc
wrap_decode-ok body panic a h = cc
wrap_decode-ok body stuck a h = cc

pub do_post-Answered :
    {A : Type 0} (decode : Bytes → Result A) (sent : Result Response) (out : A)
    → (do_post sent decode ≡ ok out) ↔ Answered decode sent out
unfolding do_post
do_post-Answered decode sent out = (
  λ h.
      let (resp, e, h1) = >>=-eq-ok sent _ h in
      let (_, c, h2) =
        >>=-eq-ok (check (leb 200 resp.status_code && leb resp.status_code 299) _) _ h1 in
      let inside = check→true (leb 200 resp.status_code && leb resp.status_code 299) _ c in
      (
        resp,
        e,
        ground (arith, inside),
        ground (arith, inside),
        wrap_decode-ok resp.body (decode resp.body) out h2,
      ),
  λ (resp, e, low, high, d).
      let inside : (leb 200 resp.status_code && leb resp.status_code 299) ≡ true =
        ground (arith, low, high) in
      rw (e, inside, d) refl,
)

pub no_error-none : (e : Option RpcError) (u : Unit {0}) → no_error e ≡ ok u → e ≡ none
no_error-none none u h = refl
no_error-none (some e) u h = cc

-- DaemonClient.Block gives a block exactly if the response has a status from 200 to 299, its JSON
-- has no error, the status OK and a hash that is not empty, and the block is that hash and the hashes
-- of the transactions.
pub block_iff :
    (json : Json) (sent : Result Response) (height : ℕ) (b : Block)
    → (block json sent height ≡ ok b)
      ↔ ((out : BlockAnswer) × Answered json.block_answer sent out × IsBlock out b)
unfolding block
block_iff json sent height b = (
  λ h.
      let (out, e, h1) = >>=-eq-ok (do_post sent json.block_answer) _ h in
      let (u, n, h2) = >>=-eq-ok (no_error out.error) _ h1 in
      let (_, s, h3) = >>=-eq-ok (check (same out.status (codes "OK")) _) _ h2 in
      let (_, f, h4) = >>=-eq-ok (check (not (length out.hash == 0)) _) _ h3 in
      (
        out,
        (do_post-Answered json.block_answer sent out).0 e,
        (
          no_error-none out.error u n,
          (same_iff out.status (codes "OK")).0 (check→true _ _ s),
          (nonempty_iff out.hash).0 (check→true _ _ f),
          sym (ok-injective h4),
        ),
      ),
  λ (out, answered, (n, s, f, e)).
      rw
        (
          (do_post-Answered json.block_answer sent out).1 answered,
          n,
          (same_iff out.status (codes "OK")).1 s,
          (nonempty_iff out.hash).1 f,
          e,
        )
        refl,
)
