-- ===== src/Extra/Fuel.antt =====
-- More rounds do not change what the loop gives once it has ended.
use xns.Common.{
  ℕ, zero, suc, ◌+◌, ◌≡◌, ◌⊎◌, inl, inr, refl, sym, ◌∙◌, List, Bytes, Result, ok, err, panic, stuck,
  ◌>>=◌, length, ltb, arith, Bool-cases,
}
use xns.Common.Int.{ℤ, pos, negsuc}
use xns.Protocol.{Payload}
use xns.Extra.{field, extract_loop}

module _ (extra : Bytes) where
  abbrev SameLater : ℕ → ℕ → ℤ → List Payload → Type 0
  SameLater fuel more i out =
      (extract_loop fuel extra i out ≡ stuck)
      ⊎ (extract_loop (fuel + more) extra i out ≡ extract_loop fuel extra i out)

  stays_behind :
      (fuel more : ℕ) (round : Result (ℤ × List Payload))
      → ((i : ℤ) (out : List Payload) → SameLater fuel more i out)
      → ((round >>= λ r. extract_loop fuel extra r.0 r.1) ≡ stuck)
        ⊎ ((round >>= λ r. extract_loop (fuel + more) extra r.0 r.1)
            ≡ (round >>= λ r. extract_loop fuel extra r.0 r.1))
  stays_behind fuel more (ok r) h = h r.0 r.1
  stays_behind fuel more (err e) h = inr refl
  stays_behind fuel more panic h = inr refl
  stays_behind fuel more stuck h = inl refl

  pub stays : (fuel more : ℕ) (i : ℤ) (out : List Payload) → SameLater fuel more i out
  unfolding extract_loop
  stays zero more i out = inl refl
  stays (suc fuel) more (negsuc k) out =
      let e : suc fuel + more ≡ suc (fuel + more) = omega arith in inr (rw e)
  stays (suc fuel) more (pos i) out =
      let e : suc fuel + more ≡ suc (fuel + more) = omega arith in
      let later = stays_behind fuel more (field extra i out) (stays fuel more) in
      elim (Bool-cases (ltb i (length extra))) [
        | inl inside ↦ rw (e, inside, extract_loop) later
        | inr outside ↦ inr (rw (e, outside, extract_loop))
      ]

  -- A loop that does not end in many rounds does not end in fewer.
  pub stuck_before :
      (fuel more : ℕ) (i : ℤ) (out : List Payload)
      → extract_loop (fuel + more) extra i out ≡ stuck
      → extract_loop fuel extra i out ≡ stuck
  stuck_before fuel more i out h = elim (stays fuel more i out) [
    | inl already ↦ already
    | inr same_result ↦ sym same_result ∙ h
  ]
