-- ===== src/TxSet/Shape.antt =====
-- A transaction set around a default extra field: a key of 32 bytes and the default nonce.
use xns.Common.{
  ℕ, zero, suc, ◌+◌, ◌%◌, ◌≡◌, sym, ap, subst, ◌∙◌, List, [], ◌∷◌, ◌++◌, Bytes, ok, index,
  >>=-eq-ok, ok-injective, length, take, drop, arith, All, length-drop, length-take, length-append,
  take-append-drop,
}
use xns.Common.Suffix.{drop-drop}
use xns.TxSet.{default_nonce, slice, locate_default_extra, search_loop, the_only, old_length}
use xns.TxSet.Search.{IsExtraAt, starts_with-split, search_loop-IsExtraAt}
use mathlib.Core.List.{append_assoc}

-- The set with `field` in the place of the extra field, behind its length in one byte.
abbrev pub around : Bytes → Bytes → Bytes → Bytes
around pre field post = pre ++ length field % 256 ∷ (field ++ post)

-- A default extra field.
abbrev pub default_extra : Bytes → Bytes
default_extra key = 1 ∷ (key ++ default_nonce)

-- The extra field that carries a payload.
abbrev pub payload_extra : Bytes → Bytes → Bytes
payload_extra key payload = 1 ∷ (key ++ 2 ∷ 64 ∷ payload)

drop-index : (xs : Bytes) (i x : ℕ) → index xs i ≡ ok x → drop i xs ≡ x ∷ drop (i + 1) xs
unfolding index
drop-index [] i x h = cc
drop-index (y ∷ xs) zero x h = ap (λ z. z ∷ xs) (ok-injective h)
drop-index (y ∷ xs) (suc i) x h =
    let e : suc i + 1 ≡ suc (i + 1) = omega arith in rw e (drop-index xs i x h)

module _ (plain : Bytes) (m : ℕ) (h : IsExtraAt plain m) where
  pub key_at : Bytes
  key_at = take 32 (drop (m + 2) plain)

  unfoldable pub post_at : Bytes
  post_at = drop (m + 45) plain

  nonce_at : drop (m + 34) plain ≡ default_nonce ++ post_at
  unfolding post_at
  nonce_at =
      let e : m + 34 + 11 ≡ m + 45 = omega arith in
      starts_with-split default_nonce (drop (m + 34) plain) h.nonce
      ∙ ap (λ r. default_nonce ++ r) (sym (drop-drop (m + 34) 11 plain) ∙ ap (λ n. drop n plain) e)

  pub size-IsExtraAt : m + 45 + length post_at ≡ length plain
  unfolding post_at
  size-IsExtraAt =
      let e = ap length nonce_at in
      omega (arith, e, length-append default_nonce post_at, length-drop (m + 34) plain)

  pub length-key_at : length key_at ≡ 32
  unfolding key_at
  length-key_at =
      omega (arith, length-take 32 (drop (m + 2) plain), length-drop (m + 2) plain, size-IsExtraAt)

  -- The field behind its length, and what follows it.
  pub extra-IsExtraAt : drop (m + 1) plain ≡ default_extra key_at ++ post_at
  unfolding key_at
  extra-IsExtraAt =
      let two : m + 1 + 1 ≡ m + 2 = omega arith in
      let behind : m + 2 + 32 ≡ m + 34 = omega arith in
      let rest : drop (m + 2) plain ≡ key_at ++ (default_nonce ++ post_at) =
        sym (take-append-drop 32 (drop (m + 2) plain))
        ∙ ap (λ r. key_at ++ r)
            (sym (drop-drop (m + 2) 32 plain) ∙ ap (λ n. drop n plain) behind ∙ nonce_at) in
      drop-index plain (m + 1) 1 h.tag
      ∙ ap (λ r. 1 ∷ r)
          (ap (λ n. drop n plain) two ∙ rest ∙ sym (append_assoc key_at default_nonce post_at))

  pub shape-IsExtraAt : plain ≡ around (take m plain) (default_extra key_at) post_at
  shape-IsExtraAt =
      let bytes : length (default_extra key_at) % 256 ≡ 44 =
        omega (arith, length-append key_at default_nonce, length-key_at) in
      sym (take-append-drop m plain)
      ∙ ap (λ r. take m plain ++ r)
          (drop-index plain m 44 h.size
            ∙ ap (λ r. 44 ∷ r) extra-IsExtraAt
            ∙ ap (λ (n : ℕ). n ∷ (default_extra key_at ++ post_at)) (sym bytes))

one_match :
    (plain extra : Bytes) (m : ℕ) (matches : List ℕ)
    → All (IsExtraAt plain) matches
    → the_only plain matches ≡ ok (m, extra)
    → IsExtraAt plain m × (slice plain (m + 1) (m + 1 + old_length) ≡ ok extra)
unfolding the_only index
one_match plain extra m [] h e = ground arith
one_match plain extra m (n ∷ n' ∷ ns) h e = ground arith
one_match plain extra m (n ∷ []) (h, _) e =
    let (bytes, sliced, same_pair) = >>=-eq-ok (slice plain (n + 1) (n + 1 + old_length)) _ e in
    let pair = ok-injective same_pair in
    let at : n ≡ m = ap (λ (q : ℕ × Bytes). q.0) pair in
    let bytes_eq : bytes ≡ extra = ap (λ (q : ℕ × Bytes). q.1) pair in
    subst (λ k. IsExtraAt plain k × (slice plain (k + 1) (k + 1 + old_length) ≡ ok extra)) at
      (h, sliced ∙ ap ok bytes_eq)

-- A place that is found holds a default extra field.
pub locate-IsExtraAt :
    (plain extra : Bytes) (m : ℕ)
    → locate_default_extra plain ≡ ok (m, extra)
    → IsExtraAt plain m × (slice plain (m + 1) (m + 1 + old_length) ≡ ok extra)
unfolding locate_default_extra
locate-IsExtraAt plain extra m h =
    let (matches, found, rest) = >>=-eq-ok (search_loop (length plain + 1) plain 0 []) _ h in
    one_match plain extra m matches
      (search_loop-IsExtraAt (length plain + 1) plain 0 [] matches tt found) rest
