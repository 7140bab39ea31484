-- ===== src/Extra/Provenance.antt =====
-- Where the payloads come from, on any extra field, well formed or not.
use xns.Common.{
  ℕ, zero, suc, ◌+◌, ◌*◌, ◌≡◌, subst, List, [], ◌∷◌, ◌++◌, Bytes, ok, check, index, ok-injective,
  >>=-eq-ok, length, take, drop, leb, ltb, not, ◌==◌, Bool-cases, inl, inr, All, All-append,
}
use xns.Common.Int.{ℤ, pos, negsuc, wrap}
use xns.Protocol.{Payload, payload_size, decode_payload}
use xns.Extra.{
  overrun, nonce_field, keys_field, field, read_varint, extract_loop, extract_payloads,
  tx_extra_pub_key, tx_extra_nonce, tx_extra_add_keys,
}

-- A payload was decoded from some bytes.
abbrev pub WasDecoded : Payload → Type 0
WasDecoded p = (raw : Bytes) × (decode_payload raw ≡ ok p)

abbrev AllDecoded : List Payload → Type 0
AllDecoded ps = All WasDecoded ps

overrun-decoded :
    (extra : Bytes) (i : ℤ) (out : List Payload) (r : ℤ × List Payload)
    → AllDecoded out
    → overrun extra i out ≡ ok r
    → AllDecoded r.1
unfolding overrun
overrun-decoded extra (pos i) out r d h =
    let (_, _, h') = >>=-eq-ok (check (not (ltb (length extra) i)) _) _ h in
    subst (λ (q : ℤ × List Payload). AllDecoded q.1) (ok-injective h') d
overrun-decoded extra (negsuc k) out r d h =
    subst (λ (q : ℤ × List Payload). AllDecoded q.1) (ok-injective h) d

nonce_field-decoded :
    (extra : Bytes) (i : ℕ) (out : List Payload) (r : ℤ × List Payload)
    → AllDecoded out
    → nonce_field extra i out ≡ ok r
    → AllDecoded r.1
unfolding nonce_field
nonce_field-decoded extra i out r d h =
    let (_, _, h1) = >>=-eq-ok (check (not (leb (length extra) i)) _) _ h in
    let (n, _, h2) = >>=-eq-ok (index extra i) _ h1 in
    let (_, _, h3) = >>=-eq-ok (check (not (ltb (length extra) (i + 1 + n))) _) _ h2 in
    let bytes = take n (drop (i + 1) extra) in
    elim (Bool-cases (n == payload_size)) [
      | inl e ↦
          let (out', added, h4) = >>=-eq-ok _ _ (rw e at h3) in
          let (p, decoded, at_end) = >>=-eq-ok (decode_payload bytes) _ added in
          let more : AllDecoded (out ++ p ∷ []) =
            All-append WasDecoded out (p ∷ []) d ((bytes, decoded), tt) in
          overrun-decoded extra (pos (i + 1 + n)) out' r
            (subst AllDecoded (ok-injective at_end) more) h4
      | inr e ↦ overrun-decoded extra (pos (i + 1 + n)) out r d (rw e at h3)
    ]

field-decoded :
    (extra : Bytes) (i : ℕ) (out : List Payload) (r : ℤ × List Payload)
    → AllDecoded out
    → field extra i out ≡ ok r
    → AllDecoded r.1
unfolding field keys_field
field-decoded extra i out r d h =
    let (tag, _, h1) = >>=-eq-ok (index extra i) _ h in
    elim (Bool-cases (tag == 0)) [
      | inl e ↦ subst (λ (q : ℤ × List Payload). AllDecoded q.1) (ok-injective (rw e at h1)) d
      | inr n0 ↦ elim (Bool-cases (tag == tx_extra_pub_key)) [
        | inl e ↦ overrun-decoded extra (pos (i + 1 + 32)) out r d (rw (n0, e) at h1)
        | inr n1 ↦ elim (Bool-cases (tag == tx_extra_nonce)) [
          | inl e ↦ nonce_field-decoded extra (i + 1) out r d (rw (n0, n1, e) at h1)
          | inr n2 ↦ elim (Bool-cases (tag == tx_extra_add_keys)) [
            | inl e ↦
                let ((n, next), _, h2) =
                  >>=-eq-ok (read_varint extra (i + 1)) _ (rw (n0, n1, n2, e) at h1) in
                overrun-decoded extra (wrap (next + n * 32)) out r d h2
            | inr n3 ↦ cc (rw (n0, n1, n2, n3) at h1)
          ]
        ]
      ]
    ]

extract_loop-decoded :
    (fuel : ℕ) (extra : Bytes) (i : ℤ) (out ps : List Payload)
    → AllDecoded out
    → extract_loop fuel extra i out ≡ ok ps
    → AllDecoded ps
unfolding extract_loop
extract_loop-decoded zero extra i out ps d h = cc
extract_loop-decoded (suc fuel) extra (negsuc k) out ps d h = cc
extract_loop-decoded (suc fuel) extra (pos i) out ps d h =
    elim (Bool-cases (ltb i (length extra))) [
      | inl inside ↦
          let (r, one, more) = >>=-eq-ok (field extra i out) _ (rw (inside, extract_loop) at h) in
          extract_loop-decoded fuel extra r.0 r.1 ps (field-decoded extra i out r d one) more
      | inr over ↦ subst AllDecoded (ok-injective (rw (over, extract_loop) at h)) d
    ]

-- Whatever the extra field, every payload that ExtractPayloads returns is what DecodePayload makes of
-- some bytes.
pub extract_payloads-WasDecoded :
    (extra : Bytes) (ps : List Payload) → extract_payloads extra ≡ ok ps → All WasDecoded ps
unfolding extract_payloads
extract_payloads-WasDecoded extra ps h =
    extract_loop-decoded (length extra + 1) extra (pos 0) [] ps tt h
