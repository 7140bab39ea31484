-- ===== src/TxSet/Patch.antt =====
-- What `patch_plaintext` changes, and that the indexer finds the payload there.
use xns.Common.{
  ℕ, ◌+◌, ◌-◌, ◌≤◌, ◌<◌, ◌^◌, ◌≡◌, sym, ap, subst, ◌∙◌, List, [], ◌∷◌, ◌++◌, map, Bytes, check,
  check→true, ==_iff, tx_set_payload, ok, index, >>=-eq-ok, ok-injective, length, take, drop, ◌==◌,
  arith, length-append, length-take, length-drop, take-append_length,
}
use xns.Hex
use xns.Hex.RoundTrip.{to_lower}
use xns.Protocol.Payloads.{decode_payload-build_payload}
use xns.Protocol.{Payload, payload_size, decode_payload, build_payload}
use xns.TxSet.{TxSetPatch, default_nonce, slice, locate_default_extra, patch_plaintext}
use xns.TxSet.Search.{IsExtraAt}
use xns.TxSet.Shape.{
  around, default_extra, payload_extra, key_at, post_at, shape-IsExtraAt, extra-IsExtraAt,
  length-key_at, size-IsExtraAt, locate-IsExtraAt,
}
use xns.Extra.{extract_payloads}
use xns.Extra.Fields.{Field, pub_key, nonce, encode_field, encode_fields, found, all_found}
use xns.Extra.Extraction.{extract_payloads-encode_fields}
use mathlib.Core.List.{append-nil}

slice-take-drop :
    (xs : Bytes) (lo hi : ℕ)
    → lo ≤ hi
    → hi ≤ length xs
    → slice xs lo hi ≡ ok (take (hi - lo) (drop lo xs))
unfolding slice
slice-take-drop xs lo hi le fits = ground arith

take_whole : (n : ℕ) (xs : Bytes) → length xs ≡ n → take n xs ≡ xs
take_whole n xs h =
    subst (λ k. take k xs ≡ xs) h
      (subst (λ r. take (length xs) r ≡ xs) (append-nil xs) (take-append_length xs []))

abbrev patch_of : Bytes → Bytes → Bytes → TxSetPatch
patch_of pre key payload = record {
  extra_length_offset = length pre;
  old_extra_length = 44;
  new_extra_length = 99;
  payload_hex = Hex.encode payload;
  new_extra_hex = Hex.encode (payload_extra key payload);
  input_size = 0;
  output_size = 0;
}

-- The steps of `patch_plaintext`, each with what it finds.
patch_steps :
    (plain payload pre key post : Bytes)
    → length payload ≡ payload_size
    → length key ≡ 32
    → locate_default_extra plain ≡ ok (length pre, default_extra key)
    → index plain (length pre) ≡ ok 44
    → slice plain 0 (length pre) ≡ ok pre
    → slice plain (length pre + 1 + 44) (length plain) ≡ ok post
    → patch_plaintext plain payload
      ≡ ok (around pre (payload_extra key payload) post, patch_of pre key payload)
unfolding patch_plaintext index
patch_steps plain payload pre key post size key_size located old front back =
    let new_size : length (payload_extra key payload) ≡ 99 =
      omega (arith, length-append key (2 ∷ 64 ∷ payload)) in
    let key_slice : slice (default_extra key) 0 33 ≡ ok (1 ∷ key) =
      slice-take-drop (default_extra key) 0 33 (omega arith)
        (omega (arith, length-append key default_nonce))
      ∙ ap (λ r. ok (1 ∷ r))
          (subst (λ n. take n (key ++ default_nonce) ≡ key) key_size
            (take-append_length key default_nonce)) in
    rw (located, size, key_slice, old, front, back, new_size)

module _ (plain extra payload : Bytes) (m : ℕ) (size : length payload ≡ payload_size)
    (located : locate_default_extra plain ≡ ok (m, extra)) where
  at_m : IsExtraAt plain m
  at_m = (locate-IsExtraAt plain extra m located).0

  pre_at : Bytes
  pre_at = take m plain

  length-pre : length pre_at ≡ m
  unfolding pre_at
  length-pre = omega (arith, length-take m plain, size-IsExtraAt plain m at_m)

  extra_found : extra ≡ default_extra (key_at plain m at_m)
  extra_found =
      let key = key_at plain m at_m in
      let bytes : length (default_extra key) ≡ 44 =
        omega (arith, length-append key default_nonce, length-key_at plain m at_m) in
      let n : m + 1 + 44 - (m + 1) ≡ 44 = omega arith in
      let taken =
        slice-take-drop plain (m + 1) (m + 1 + 44) (omega arith)
          (omega (arith, size-IsExtraAt plain m at_m)) in
      ok-injective (sym (locate-IsExtraAt plain extra m located).1 ∙ taken)
      ∙ ap (λ k. take k (drop (m + 1) plain)) n
      ∙ ap (take 44) (extra-IsExtraAt plain m at_m)
      ∙ subst (λ k. take k (default_extra key ++ post_at plain m at_m) ≡ default_extra key) bytes
          (take-append_length (default_extra key) (post_at plain m at_m))

  pre_slice : slice plain 0 m ≡ ok pre_at
  unfolding pre_at
  pre_slice =
      let n : m - 0 ≡ m = omega arith in
      slice-take-drop plain 0 m (omega arith) (omega (arith, size-IsExtraAt plain m at_m))
      ∙ ap (λ k. ok (take k plain)) n

  post_slice : slice plain (m + 1 + 44) (length plain) ≡ ok (post_at plain m at_m)
  unfolding post_at
  post_slice =
      let n : m + 1 + 44 ≡ m + 45 = omega arith in
      let total = size-IsExtraAt plain m at_m in
      rw n (
        slice-take-drop plain (m + 45) (length plain) (omega (arith, total)) (omega arith)
        ∙ ap ok (
            take_whole (length plain - (m + 45)) (drop (m + 45) plain)
              (length-drop (m + 45) plain)))

  patched_at :
      patch_plaintext plain payload
      ≡ ok (
        around pre_at (payload_extra (key_at plain m at_m) payload) (post_at plain m at_m),
        patch_of pre_at (key_at plain m at_m) payload,
      )
  unfolding pre_at
  patched_at =
      patch_steps plain payload (take m plain) (key_at plain m at_m) (post_at plain m at_m) size
        (length-key_at plain m at_m) (located ∙ (λ t. ok (sym length-pre t, extra_found t)))
        (subst (λ n. index plain n ≡ ok 44) (sym length-pre) at_m.size)
        (subst (λ n. slice plain 0 n ≡ ok (take m plain)) (sym length-pre) pre_slice)
        (subst (λ n. slice plain (n + 1 + 44) (length plain) ≡ ok (post_at plain m at_m))
          (sym length-pre) post_slice)

patch_starts :
    (plain payload : Bytes) (r : Bytes × TxSetPatch)
    → patch_plaintext plain payload ≡ ok r
    → (length payload ≡ payload_size) × ((q : ℕ × Bytes) × (locate_default_extra plain ≡ ok q))
unfolding patch_plaintext
patch_starts plain payload r h =
    let (_, sized, h') = >>=-eq-ok (check (length payload == payload_size) tx_set_payload) _ h in
    let (q, located, _) = >>=-eq-ok (locate_default_extra plain) _ h' in
    ((==_iff (length payload) payload_size).0 (check→true _ _ sized), (q, located))

-- Where a plaintext is patched, it holds a default extra field, a key of 32 bytes with an encrypted
-- payment id, behind its length. The result has in its place the same key and the payload, behind
-- their length, and is otherwise the same.
pub patch_plaintext_lem :
    (plain payload patched : Bytes) (meta : TxSetPatch)
    → patch_plaintext plain payload ≡ ok (patched, meta)
    → (pre : Bytes) × (key : Bytes) × (post : Bytes) × (length key ≡ 32)
      × (length payload ≡ payload_size)
      × (plain ≡ around pre (default_extra key) post)
      × (patched ≡ around pre (payload_extra key payload) post)
patch_plaintext_lem plain payload patched meta h =
    let (size, ((m, extra), located)) = patch_starts plain payload (patched, meta) h in
    let at = at_m plain extra payload m size located in
    let result = ok-injective (sym h ∙ patched_at plain extra payload m size located) in
    (
      pre_at plain extra payload m size located,
      key_at plain m at,
      post_at plain m at,
      length-key_at plain m at,
      size,
      unfold pre_at in shape-IsExtraAt plain m at,
      ap (λ (q : Bytes × TxSetPatch). q.0) result,
    )

-- The extra field of a patched transaction is well formed, and the payload is found in it.
pub extract_payloads-payload_extra :
    (key payload : Bytes) (p : Payload)
    → length key ≡ 32
    → length payload ≡ payload_size
    → decode_payload payload ≡ ok p
    → extract_payloads (payload_extra key payload) ≡ ok (p ∷ [])
unfolding encode_fields encode_field all_found found
extract_payloads-payload_extra key payload p key_size size decoded =
    let fields : List Field = pub_key key ∷ nonce payload ∷ [] in
    let whole : encode_fields fields ≡ payload_extra key payload = rw (size, append-nil) in
    let total : length (payload_extra key payload) ≡ 99 =
      omega (arith, length-append key (2 ∷ 64 ∷ payload)) in
    subst (λ r. extract_payloads r ≡ ok (p ∷ [])) whole
      (extract_payloads-encode_fields fields (key_size, (omega arith, tt))
          (subst (λ r. length r < 2 ^ 63) (sym whole) (omega arith))
        ∙ rw (size, decoded))

-- What `xns claim` puts into a transaction, the indexer finds: from a payload that was built for a
-- name and an owner key, the patched set has an extra field, in the place of the default one and
-- behind its length, from which exactly that payload is extracted, its key in lower case.
pub claim_found :
    (name owner payload plain patched : Bytes) (meta : TxSetPatch)
    → build_payload name owner ≡ ok payload
    → patch_plaintext plain payload ≡ ok (patched, meta)
    → (pre : Bytes) × (key : Bytes) × (post : Bytes) × (plain ≡ around pre (default_extra key) post)
      × (patched ≡ around pre (payload_extra key payload) post)
      × (extract_payloads (payload_extra key payload)
          ≡ ok (
              record {
                name = name;
                owner_key = map to_lower owner;
                payload_hex = Hex.encode payload;
              }
              ∷ []))
claim_found name owner payload plain patched meta built h =
    let (pre, key, post, key_size, size, before, after) =
      patch_plaintext_lem plain payload patched meta h in
    let (_, decoded) = decode_payload-build_payload name owner payload built in
    (
      pre,
      key,
      post,
      before,
      after,
      extract_payloads-payload_extra key payload _ key_size size decoded,
    )
