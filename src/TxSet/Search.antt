-- ===== src/TxSet/Search.antt =====
-- What `locate_default_extra` finds: the one place where a default extra field stands.
use xns.Common.{
  ℕ, zero, suc, ◌+◌, ◌-◌, ◌≤◌, ◌≡◌, refl, subst, Bool, true, false, some, List, [], ◌∷◌, ◌++◌,
  Bytes, ok, index, >>=-eq-ok, ok-injective, length, drop, if◌then◌else◌, arith, All, All-append,
  Option-cases, inl, inr,
}
use xns.Common.Suffix.{drop-drop}
use xns.TxSet.{default_nonce, starts_with, index_of, is_default_extra, search_loop}

-- A length byte, the tag of a key, and the nonce 33 bytes behind it.
pub record IsExtraAt (plain : Bytes) (m : ℕ) : Type 0 where
  pub size : index plain m ≡ ok 44
  pub tag : index plain (m + 1) ≡ ok 1
  pub nonce : starts_with default_nonce (drop (m + 34) plain) ≡ true

pub starts_with-split : (p xs : Bytes) → starts_with p xs ≡ true → xs ≡ p ++ drop (length p) xs
unfolding starts_with
starts_with-split [] xs h = refl
starts_with-split (p ∷ ps) [] h = ground arith
starts_with-split (p ∷ ps) (x ∷ xs) h = ground (arith, starts_with-split ps xs)

index_of-starts_with :
    (p xs : Bytes) (k : ℕ) → index_of p xs ≡ some k → starts_with p (drop k xs) ≡ true
unfolding index_of
index_of-starts_with p [] k h = ground arith
index_of-starts_with p (x ∷ xs) zero h = ground arith
index_of-starts_with p (x ∷ xs) (suc k) h = ground (arith, index_of-starts_with p xs k)

is_default_extra_lem :
    (plain : Bytes) (i : ℕ)
    → is_default_extra plain i ≡ ok true
    → (34 ≤ i) × (index plain (i - 33) ≡ ok 1) × (index plain (i - 34) ≡ ok 44)
unfolding is_default_extra
is_default_extra_lem plain i h = ground arith

kept-IsExtraAt :
    (plain : Bytes) (i : ℕ) (matches : List ℕ) (fits : Bool)
    → starts_with default_nonce (drop i plain) ≡ true
    → is_default_extra plain i ≡ ok fits
    → All (IsExtraAt plain) matches
    → All (IsExtraAt plain) (if fits then matches ++ (i - 34) ∷ [] else matches)
kept-IsExtraAt plain i matches false at test h = h
kept-IsExtraAt plain i matches true at test h =
    let (le, tag, size) = is_default_extra_lem plain i test in
    let next : i - 33 ≡ i - 34 + 1 = omega arith in
    let here : i ≡ i - 34 + 34 = omega arith in
    All-append (IsExtraAt plain) matches ((i - 34) ∷ []) h (
      record {
        size = size;
        tag = subst (λ j. index plain j ≡ ok 1) next tag;
        nonce = subst (λ j. starts_with default_nonce (drop j plain) ≡ true) here at;
      },
      tt,
    )

at_match :
    (k off : ℕ) (plain : Bytes)
    → index_of default_nonce (drop off plain) ≡ some k
    → starts_with default_nonce (drop (k + off) plain) ≡ true
at_match k off plain found =
    let e : k + off ≡ off + k = omega arith in
    rw (e, drop-drop off k plain) (index_of-starts_with default_nonce (drop off plain) k found)

pub search_loop-IsExtraAt :
    (fuel : ℕ) (plain : Bytes) (off : ℕ) (matches out : List ℕ)
    → All (IsExtraAt plain) matches
    → search_loop fuel plain off matches ≡ ok out
    → All (IsExtraAt plain) out
unfolding search_loop
search_loop-IsExtraAt zero plain off matches out h e = cc
search_loop-IsExtraAt (suc fuel) plain off matches out h e =
    elim (Option-cases (index_of default_nonce (drop off plain))) [
      | inl nothing ↦
          subst (All (IsExtraAt plain)) (ok-injective (rw (nothing, search_loop) at e)) h
      | inr (k, found) ↦
          let e' = rw (found, search_loop) at e in
          let (fits, test, rest) = >>=-eq-ok (is_default_extra plain (k + off)) _ e' in
          search_loop-IsExtraAt fuel plain (k + off + 1) _ out
            (kept-IsExtraAt plain (k + off) matches fits (at_match k off plain found) test h) rest
    ]
