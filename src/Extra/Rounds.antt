-- ===== src/Extra/Rounds.antt =====
-- The rounds of the loop: where an index is, and that as many rounds as there are bytes are enough.
use xns.Common.{
  ℕ, zero, suc, ◌+◌, ◌<◌, ◌≡◌, ◌⊎◌, inl, inr, refl, sym, ◌∙◌, ap, Bool, true, false, List, [],
  Bytes, Result, ok, err, panic, stuck, ◌>>=◌, length, ltb, arith, Bool-cases, ltb→lt, lt→ltb,
}
use xns.Common.Int.{ℤ, pos, negsuc}
use xns.Common.Counting.{stays_same}
use xns.Protocol.{Payload}
use xns.Extra.{overrun, nonce_field, keys_field, field, extract_loop, extract_payloads}
use xns.Extra.Fuel.{stays, stuck_before}

-- The index behind a round.
abbrev behind : Result (ℤ × List Payload) → Result ℤ
behind (ok r) = ok r.0
behind (err e) = err e
behind panic = panic
behind stuck = stuck

behind-overrun :
    (extra : Bytes) (i : ℤ) (out out' : List Payload)
    → behind (overrun extra i out) ≡ behind (overrun extra i out')
unfolding overrun
behind-overrun extra (pos i) out out' = elim (Bool-cases (ltb (length extra) i)) [
  | inl e ↦ rw e
  | inr e ↦ rw e
]
behind-overrun extra (negsuc k) out out' = refl

behind-nonce_field :
    (extra : Bytes) (i : ℕ) (out out' : List Payload)
    → behind (nonce_field extra i out) ≡ behind (nonce_field extra i out')
unfolding nonce_field overrun
behind-nonce_field extra i out out' = grind (arith, behind-overrun)

behind-field :
    (extra : Bytes) (i : ℕ) (out out' : List Payload)
    → behind (field extra i out) ≡ behind (field extra i out')
unfolding field keys_field
behind-field extra i out out' = grind (arith, behind-overrun, behind-nonce_field)

module _ (extra : Bytes) where
  -- Where the round at an index leads, whatever was found before.
  abbrev leads : ℕ → Result ℤ
  leads i = behind (field extra i [])

  abbrev go_on : (ℤ → Bool) → Result ℤ → Bool
  go_on walk (ok z) = walk z
  go_on walk (err e) = false
  go_on walk panic = false
  go_on walk stuck = true

  -- An index is inside after a number of rounds.
  unfoldable is_inside : ℕ → ℤ → Bool
  is_inside n (negsuc k) = false
  is_inside zero (pos i) = ltb i (length extra)
  is_inside (suc n) (pos i) = elim (ltb i (length extra)) [
    | true ↦ go_on (is_inside n) (leads i)
    | false ↦ false
  ]

  go_on-round :
      (fuel n : ℕ) (round : Result (ℤ × List Payload))
      → ((i : ℤ) (out : List Payload)
          → extract_loop fuel extra i out ≡ stuck
          → is_inside n i ≡ true)
      → (round >>= λ r. extract_loop fuel extra r.0 r.1) ≡ stuck
      → go_on (is_inside n) (behind round) ≡ true
  go_on-round fuel n (ok r) later h = later r.0 r.1 h
  go_on-round fuel n (err e) later h = cc
  go_on-round fuel n panic later h = cc
  go_on-round fuel n stuck later h = refl

  -- A loop that has not ended is inside the field.
  stuck→is_inside :
      (n : ℕ) (i : ℤ) (out : List Payload)
      → extract_loop (suc n) extra i out ≡ stuck
      → is_inside n i ≡ true
  unfolding extract_loop is_inside
  stuck→is_inside n (negsuc k) out h = cc
  stuck→is_inside zero (pos i) out h = elim (Bool-cases (ltb i (length extra))) [
    | inl inside ↦ inside
    | inr outside ↦ cc (rw (outside, extract_loop) at h)
  ]
  stuck→is_inside (suc n) (pos i) out h = elim (Bool-cases (ltb i (length extra))) [
    | inl inside ↦
        rw (inside, is_inside, behind-field extra i [] out)
          (go_on-round (suc n) n (field extra i out) (stuck→is_inside n)
            (rw (inside, extract_loop) at h))
    | inr outside ↦ cc (rw (outside, extract_loop) at h)
  ]

  round-go_on :
      (n : ℕ) (round : Result (ℤ × List Payload))
      → ((i : ℤ) (out : List Payload) → is_inside n i ≡ true → extract_loop n extra i out ≡ stuck)
      → go_on (is_inside n) (behind round) ≡ true
      → (round >>= λ r. extract_loop n extra r.0 r.1) ≡ stuck
  round-go_on n (ok r) later h = later r.0 r.1 h
  round-go_on n (err e) later h = cc
  round-go_on n panic later h = cc
  round-go_on n stuck later h = refl

  -- An index inside the field is one where the loop has not ended.
  is_inside→stuck :
      (n : ℕ) (i : ℤ) (out : List Payload)
      → is_inside n i ≡ true
      → extract_loop n extra i out ≡ stuck
  unfolding extract_loop is_inside
  is_inside→stuck zero i out h = refl
  is_inside→stuck (suc n) (negsuc k) out h = cc
  is_inside→stuck (suc n) (pos i) out h = elim (Bool-cases (ltb i (length extra))) [
    | inl inside ↦
        rw (inside, extract_loop)
          (round-go_on n (field extra i out) (is_inside→stuck n)
            (rw (inside, is_inside, behind-field extra i [] out) at h))
    | inr outside ↦ cc (rw (outside, is_inside) at h)
  ]

  go_on_before :
      (n : ℕ) (next : Result ℤ)
      → ((i : ℤ) → is_inside (suc n) i ≡ true → is_inside n i ≡ true)
      → go_on (is_inside (suc n)) next ≡ true
      → go_on (is_inside n) next ≡ true
  go_on_before n (ok z) earlier h = earlier z h
  go_on_before n (err e) earlier h = h
  go_on_before n panic earlier h = h
  go_on_before n stuck earlier h = h

  is_inside_before : (n : ℕ) (i : ℤ) → is_inside (suc n) i ≡ true → is_inside n i ≡ true
  unfolding is_inside
  is_inside_before n (negsuc k) h = h
  is_inside_before zero (pos i) h = elim (Bool-cases (ltb i (length extra))) [
    | inl inside ↦ inside
    | inr outside ↦ cc (rw (outside, is_inside) at h)
  ]
  is_inside_before (suc n) (pos i) h = elim (Bool-cases (ltb i (length extra))) [
    | inl inside ↦
        rw (inside, is_inside)
          (go_on_before n (leads i) (is_inside_before n) (rw (inside, is_inside) at h))
    | inr outside ↦ cc (rw (outside, is_inside) at h)
  ]

  abbrev IsAtRest : ℕ → Type 0
  IsAtRest n = (i : ℕ) → i < length extra → is_inside (suc n) (pos i) ≡ is_inside n (pos i)

  outside_false : (n i : ℕ) → ltb i (length extra) ≡ false → is_inside n (pos i) ≡ false
  unfolding is_inside
  outside_false zero i outside = outside
  outside_false (suc n) i outside = rw (outside, is_inside)

  go_on_rests :
      (n : ℕ) (next : Result ℤ)
      → IsAtRest n
      → go_on (is_inside (suc n)) next ≡ go_on (is_inside n) next
  unfolding is_inside
  go_on_rests n (ok (negsuc k)) rests = refl
  go_on_rests n (ok (pos i)) rests = elim (Bool-cases (ltb i (length extra))) [
    | inl inside ↦ rests i (ltb→lt i (length extra) inside)
    | inr outside ↦ outside_false (suc n) i outside ∙ sym (outside_false n i outside)
  ]
  go_on_rests n (err e) rests = refl
  go_on_rests n panic rests = refl
  go_on_rests n stuck rests = refl

  is_inside_rests : (n : ℕ) → IsAtRest n → IsAtRest (suc n)
  unfolding is_inside
  is_inside_rests n rests i below =
      rw (lt→ltb i (length extra) below, is_inside) (go_on_rests n (leads i) rests)

  is_inside_later :
      (more : ℕ)
      → is_inside (length extra) (pos 0) ≡ true
      → is_inside (more + length extra) (pos 0) ≡ true
  is_inside_later more h = elim (Bool-cases (ltb 0 (length extra))) [
    | inl inside ↦
        stays_same (λ n i. is_inside n (pos i)) (length extra) (λ n i. is_inside_before n (pos i))
          is_inside_rests more 0 (ltb→lt 0 (length extra) inside)
        ∙ h
    | inr outside ↦ cc (outside_false (length extra) 0 outside)
  ]

  stuck_later :
      (fuel : ℕ) → extract_payloads extra ≡ stuck → extract_loop fuel extra (pos 0) [] ≡ stuck
  unfolding extract_payloads
  stuck_later fuel h =
      let one_more : length extra + 1 ≡ suc (length extra) = omega arith in
      let inside = stuck→is_inside (length extra) (pos 0) [] (rw one_more at h) in
      stuck_before extra fuel (length extra) (pos 0) []
        (is_inside→stuck (fuel + length extra) (pos 0) [] (is_inside_later fuel inside))

-- However many rounds the loop in ExtractPayloads is allowed, it has not ended within them or has
-- given what ExtractPayloads is said to give: the model's bound on the rounds, one more than there
-- are bytes, takes no result away, and a loop that reaches it never ends.
pub extract_payloads_lem :
    (extra : Bytes) (fuel : ℕ)
    → (extract_loop fuel extra (pos 0) [] ≡ stuck)
      ⊎ (extract_loop fuel extra (pos 0) [] ≡ extract_payloads extra)
unfolding extract_payloads
extract_payloads_lem extra fuel =
    let rounds = length extra + 1 in
    let swapped : fuel + rounds ≡ rounds + fuel = omega arith in
    elim (stays extra rounds fuel (pos 0) []) [
      | inl not_yet ↦ inl (stuck_later extra fuel not_yet)
      | inr later ↦ elim (stays extra fuel rounds (pos 0) []) [
        | inl not_yet ↦ inl not_yet
        | inr ended ↦ inr (sym ended ∙ ap (λ n. extract_loop n extra (pos 0) []) swapped ∙ later)
      ]
    ]
