-- ===== src/Extra/Ending.antt =====
-- ExtractPayloads comes to an end where no count of keys makes the index wrap.
use xns.Common.{
  ℕ, zero, suc, ◌+◌, ◌*◌, ◌%◌, ◌^◌, ◌<◌, ◌≤◌, ◌≡◌, ◌≢◌, refl, subst, Bool-cases, inl, inr, true,
  false, List, [], ◌∷◌, ◌++◌, Bytes, Result, ok, err, panic, stuck, ◌>>=◌, HasEnded, if◌then◌else◌,
  HasEnded-stuck, HasEnded-bind, HasEnded-ok, HasEnded-err, HasEnded-check, index, Error,
  HasEnded-index, length, drop, ltb, ◌==◌, arith, lt→ltb,
}
use xns.Common.Int.{ℤ, pos, negsuc}
use xns.Protocol.{Payload, payload_size, decode_payload}
use xns.Protocol.Ending.{decode_payload-HasEnded}
use xns.Extra.{
  varint_loop, read_varint, overrun, nonce_field, keys_field, field, extract_loop, extract_payloads,
  tx_extra_pub_key, tx_extra_nonce, tx_extra_add_keys,
}

-- A varint is read to its end, which is behind its start.
abbrev IsBehind : ℕ → Result (ℕ × ℕ) → Type 0
IsBehind i (ok r) = i < r.1
IsBehind i (err e) = Unit {0}
IsBehind i panic = Unit {0}
IsBehind i stuck = true ≡ false

IsBehind-less : (i j : ℕ) (r : Result (ℕ × ℕ)) → i ≤ j → IsBehind j r → IsBehind i r
IsBehind-less i j (ok r) less h = omega (arith, less, h)
IsBehind-less i j (err e) less h = tt
IsBehind-less i j panic less h = tt
IsBehind-less i j stuck less h = h

IsBehind-varint_loop : (bs : Bytes) (i value shift : ℕ) → IsBehind i (varint_loop bs i value shift)
unfolding varint_loop
IsBehind-varint_loop [] i value shift = tt
IsBehind-varint_loop (b ∷ bs) i value shift = elim (Bool-cases (ltb b 0x80)) [
  | inl last ↦ rw last (omega arith)
  | inr more ↦ elim (Bool-cases (ltb 63 (shift + 7))) [
    | inl large ↦ rw (more, large) tt
    | inr small ↦
        rw (more, small)
          (IsBehind-less i (i + 1) _ (omega arith) (IsBehind-varint_loop bs (i + 1) _ (shift + 7)))
  ]
]

IsBehind→HasEnded : (i : ℕ) (r : Result (ℕ × ℕ)) → IsBehind i r → HasEnded r
unfolding HasEnded
IsBehind→HasEnded i (ok r) h = tt
IsBehind→HasEnded i (err e) h = tt
IsBehind→HasEnded i panic h = tt
IsBehind→HasEnded i stuck h = h

module _ (extra : Bytes) where
  -- A round ends, and where it goes on, the index is higher and not past the end.
  Grows : ℕ → Result (ℤ × List Payload) → Type 0
  Grows i (ok (pos j, out)) = (i < j) × (j ≤ length extra)
  Grows i (ok (negsuc k, out)) = true ≡ false
  Grows i (err e) = Unit {0}
  Grows i panic = Unit {0}
  Grows i stuck = true ≡ false

  Grows-err : (i : ℕ) (e : Error) → Grows i (err e)
  unfolding Grows
  Grows-err i e = tt

  Grows-panic : (i : ℕ) → Grows i panic
  unfolding Grows
  Grows-panic i = tt

  Grows-bind :
      {A : Type 0} (i : ℕ) (r : Result A) (f : A → Result (ℤ × List Payload))
      → HasEnded r
      → ((a : A) → r ≡ ok a → Grows i (f a))
      → Grows i (r >>= f)
  unfolding HasEnded
  Grows-bind i (ok a) f h hf = hf a refl
  Grows-bind i (err e) f h hf = Grows-err i e
  Grows-bind i panic f h hf = Grows-panic i
  Grows-bind i stuck f h hf = cc

  Grows-overrun : (i j : ℕ) (out : List Payload) → i < j → Grows i (overrun extra (pos j) out)
  unfolding overrun Grows
  Grows-overrun i j out up = elim (Bool-cases (ltb (length extra) j)) [
    | inl past ↦ rw past tt
    | inr inside ↦ rw inside (up, ground (arith, inside))
  ]

  with_payload_ends :
      (bytes : Bytes) (out : List Payload)
      → HasEnded (decode_payload bytes >>= λ p. ok (out ++ p ∷ []))
  with_payload_ends bytes out = search (HasEnded-bind, HasEnded-ok, decode_payload-HasEnded) depth 8

  Grows-next : (i : ℕ) (out : List Payload) → i < length extra → Grows i (ok (pos (i + 1), out))
  unfolding Grows
  Grows-next i out inside = (omega arith, omega (arith, inside))

  added_ends :
      (n : ℕ) (bytes : Bytes) (out : List Payload)
      → HasEnded
          (if n == payload_size then (decode_payload bytes >>= λ p. ok (out ++ p ∷ [])) else ok out)
  added_ends n bytes out = elim (Bool-cases (n == payload_size)) [
    | inl e ↦ rw e (with_payload_ends bytes out)
    | inr e ↦ rw e (HasEnded-ok out)
  ]

  Grows-behind :
      (i k n : ℕ) (out : List Payload) → i < k → Grows i (overrun extra (pos (k + 1 + n)) out)
  Grows-behind i k n out up = Grows-overrun i (k + 1 + n) out (omega (arith, up))

  Grows-nonce_field : (i k : ℕ) (out : List Payload) → i < k → Grows i (nonce_field extra k out)
  unfolding nonce_field
  Grows-nonce_field i k out up =
      search (Grows-bind, HasEnded-check, HasEnded-index, added_ends, Grows-behind, up) depth 16

  -- No count of keys reaches 2 ^ 63 as an index.
  abbrev pub NoWrap : Type 0
  NoWrap = (i n next : ℕ) → read_varint extra i ≡ ok (n, next) → next + n * 32 < 2 ^ 63

  module _ (no_wrap : NoWrap) where
    Grows-keys_field : (i k : ℕ) (out : List Payload) → i < k → Grows i (keys_field extra k out)
    unfolding keys_field read_varint
    Grows-keys_field i k out up =
        let behind = IsBehind-varint_loop (drop k extra) k 0 0 in
        Grows-bind i (varint_loop (drop k extra) k 0 0) _ (IsBehind→HasEnded k _ behind) (λ r e.
          let small = no_wrap k r.0 r.1 e in
          let higher : k < r.1 = subst (IsBehind k) e behind in
          let same_index : (r.1 + r.0 * 32) % 2 ^ 64 ≡ r.1 + r.0 * 32 = omega (arith, small) in
          rw (same_index, lt→ltb (r.1 + r.0 * 32) (2 ^ 63) small)
            (Grows-overrun i (r.1 + r.0 * 32) out (omega (arith, up, higher))))

    Grows-field : (i : ℕ) (out : List Payload) → i < length extra → Grows i (field extra i out)
    unfolding field
    Grows-field i out inside = Grows-bind i (index extra i) _ (HasEnded-index extra i) (λ tag _.
        elim (Bool-cases (tag == 0)) [
          | inl e ↦ rw e (Grows-next i out inside)
          | inr n0 ↦ elim (Bool-cases (tag == tx_extra_pub_key)) [
            | inl e ↦ rw (n0, e) (Grows-overrun i (i + 1 + 32) out (omega arith))
            | inr n1 ↦ elim (Bool-cases (tag == tx_extra_nonce)) [
              | inl e ↦ rw (n0, n1, e) (Grows-nonce_field i (i + 1) out (omega arith))
              | inr n2 ↦ elim (Bool-cases (tag == tx_extra_add_keys)) [
                | inl e ↦ rw (n0, n1, n2, e) (Grows-keys_field i (i + 1) out (omega arith))
                | inr n3 ↦ rw (n0, n1, n2, n3) (Grows-err i _)
              ]
            ]
          ]
        ])

    ended_panic : HasEnded {A = List Payload} panic
    unfolding HasEnded
    ended_panic = tt

    next_ends :
        (i fuel : ℕ) (round : Result (ℤ × List Payload))
        → length extra < i + suc fuel
        → Grows i round
        → ((j : ℕ) (out : List Payload)
            → j ≤ length extra
            → length extra < j + fuel
            → HasEnded (extract_loop fuel extra (pos j) out))
        → HasEnded (round >>= λ r. extract_loop fuel extra r.0 r.1)
    unfolding Grows
    next_ends i fuel (ok (pos j, out)) enough (up, inside) later =
        later j out inside (omega (arith, enough, up))
    next_ends i fuel (ok (negsuc k, out)) enough g later = cc
    next_ends i fuel (err e) enough g later = HasEnded-err _ e
    next_ends i fuel panic enough g later = ended_panic
    next_ends i fuel stuck enough g later = cc

    loop_ends :
        (fuel i : ℕ) (out : List Payload)
        → i ≤ length extra
        → length extra < i + fuel
        → HasEnded (extract_loop fuel extra (pos i) out)
    unfolding extract_loop
    loop_ends zero i out inside enough = absurd (omega (arith, inside, enough))
    loop_ends (suc fuel) i out inside enough = elim (Bool-cases (ltb i (length extra))) [
      | inl below ↦
          rw (below, extract_loop)
            (next_ends i fuel (field extra i out) enough (Grows-field i out (ground (arith, below)))
              (loop_ends fuel))
      | inr end ↦ rw (end, extract_loop) (HasEnded-ok out)
    ]

-- ExtractPayloads ends, with payloads, an error or a panic, for every extra field in which no varint,
-- wherever it is read, counts so many keys that the index behind them reaches 2 ^ 63: each round of
-- the loop ends and leads to a higher index, which is not past the end of the field.
pub extract_payloads_ends :
    (extra : Bytes)
    → ((i n next : ℕ) → read_varint extra i ≡ ok (n, next) → next + n * 32 < 2 ^ 63)
    → extract_payloads extra ≢ stuck
unfolding extract_payloads
extract_payloads_ends extra no_wrap =
    HasEnded-stuck (extract_loop (length extra + 1) extra (pos 0) [])
      (loop_ends extra no_wrap (length extra + 1) 0 [] (omega arith) (omega arith))
