-- ===== src/Registry/Refinement.antt =====
-- The registry implements the ledger as long as no height reaches 2 ^ 64.
use xns.Common.{
  ℕ, ◌+◌, ◌/◌, ◌^◌, ◌≤◌, ◌<◌, ◌≡◌, refl, ap, sym, subst, ◌∙◌, true, false, none, some, List, [],
  ◌∷◌, Bytes, ltb, arith, All, Error, amount_below, amount_multiple, Bool-cases, Option-cases, inl,
  inr,
}
use xns.Protocol.{Payload, year_amount, years_from_amount}
use xns.Registry.{Registry, Event, apply, apply_payload}
use mathlib.Core.Path.{fun_ext}
use xns.Registry.Leases.{IsWithin, apply_payload-view, apply_payload-IsWithin}
use xns.Registry.Ledger.{
  Input, view, is_payment, paid, step, steps, apply_input, apply_inputs, paid_total,
}

-- What an amount is worth, read off the code.
years_from_amount-is_payment :
    (amount : ℕ)
    → is_payment amount ≡ true
    → years_from_amount amount ≡ (amount / year_amount, none)
unfolding years_from_amount
years_from_amount-is_payment amount h = ground arith

years_from_amount-error :
    (amount : ℕ)
    → is_payment amount ≡ false
    → (e : Error) × (years_from_amount amount ≡ (0, some e))
unfolding years_from_amount
years_from_amount-error amount h = elim (Bool-cases (ltb amount year_amount)) [
  | inl low ↦ (amount_below, ground arith)
  | inr high ↦ (amount_multiple, ground arith)
]

-- A transfer that is not for a whole number of years, or has no payload, leaves the registry.
pub apply-unpaid : (r : Registry) (i : Input) → is_payment i.amount ≡ false → apply_input r i ≡ r
unfolding apply
apply-unpaid r i h = let (e, q) = years_from_amount-error i.amount h in ground (arith, q)

pub apply-no_payload : (r : Registry) (i : Input) → i.payload ≡ none → apply_input r i ≡ r
unfolding apply
apply-no_payload r i h = ground (arith, h)

pub apply-paid :
    (r : Registry) (i : Input) (p : Payload)
    → is_payment i.amount ≡ true
    → i.payload ≡ some p
    → apply r i.txid i.height i.amount i.payload i.invalid
      ≡ apply_payload r i.txid i.height i.amount (i.amount / year_amount) p
unfolding apply
apply-paid r i p h e = ground (arith, years_from_amount-is_payment i.amount h, e)

-- One transfer does to the leases what the ledger says.
module _ (r : Registry) (i : Input) (c : ℕ) (within : IsWithin r c) (now : i.height ≤ c)
    (room : c + paid i.amount < 2 ^ 64) where
  apply-view : (k : Bytes) → view (apply_input r i) k ≡ step (view r) i k
  unfolding step
  apply-view k = elim (Bool-cases (is_payment i.amount)) [
    | inl pays ↦ elim (Option-cases i.payload) [
      | inl bare ↦
          ap (λ (q : Registry). view q k) (apply-no_payload r i bare) ∙ ground (arith, bare)
      | inr (p, has) ↦
          ap (λ (q : Registry × Event). view q.0 k) (apply-paid r i p pays has)
          ∙ apply_payload-view r i.txid i.height i.amount c (i.amount / year_amount) p within now
              (ground arith) k
          ∙ ground (arith, has, pays)
    ]
    | inr no_pay ↦
        ap (λ (q : Registry). view q k) (apply-unpaid r i no_pay) ∙ ground (arith, no_pay)
  ]

  unchanged-IsWithin : apply_input r i ≡ r → IsWithin (apply_input r i) (c + paid i.amount)
  unchanged-IsWithin e =
      subst (λ q. IsWithin q (c + paid i.amount)) (sym e)
        (record { at = λ k x h. omega (arith, within.at k x h) })

  pub apply-IsWithin : IsWithin (apply_input r i) (c + paid i.amount)
  apply-IsWithin = elim (Bool-cases (is_payment i.amount)) [
    | inl pays ↦ elim (Option-cases i.payload) [
      | inl bare ↦ unchanged-IsWithin (apply-no_payload r i bare)
      | inr (p, has) ↦
          subst (λ (q : Registry × Event). IsWithin q.0 (c + paid i.amount))
            (sym (apply-paid r i p pays has))
            (rw (pays) (
              apply_payload-IsWithin r i.txid i.height i.amount c (i.amount / year_amount) p within
                now (ground arith)))
    ]
    | inr no_pay ↦ unchanged-IsWithin (apply-unpaid r i no_pay)
  ]

pub heights_up :
    (is : List Input) (c d : ℕ)
    → c ≤ d
    → All (λ (i : Input). i.height ≤ c) is
    → All (λ (i : Input). i.height ≤ d) is
heights_up [] c d h _ = tt
heights_up (i ∷ is) c d h (now, later) = (omega arith, heights_up is c d h later)

-- Starting with no lease past `c`, at heights that are not past `c` either, the code's leases after
-- any transfers are the ledger's, if `c` and all that is paid stay below 2 ^ 64.
pub apply_inputs-view :
    (is : List Input) (r : Registry) (c : ℕ)
    → IsWithin r c
    → All (λ (i : Input). i.height ≤ c) is
    → c + paid_total is < 2 ^ 64
    → (k : Bytes) → view (apply_inputs r is) k ≡ steps (view r) is k
unfolding apply_inputs steps paid_total
apply_inputs-view [] r c within now room k = refl
apply_inputs-view (i ∷ is) r c within (now, later) room k =
    apply_inputs-view is (apply_input r i) (c + paid i.amount)
      (apply-IsWithin r i c within now (omega arith))
      (heights_up is c (c + paid i.amount) (omega arith) later) (omega arith) k
    ∙ ap (λ s. steps s is k) (fun_ext (apply-view r i c within now (omega arith)))

-- From a registry with no lease past a height `c`, after any transfers at heights up to `c`, no lease
-- runs past `c` and the blocks that the transfers paid for, if that sum is below 2 ^ 64.
pub apply_inputs-IsWithin :
    (is : List Input) (r : Registry) (c : ℕ)
    → IsWithin r c
    → All (λ (i : Input). i.height ≤ c) is
    → c + paid_total is < 2 ^ 64
    → IsWithin (apply_inputs r is) (c + paid_total is)
unfolding apply_inputs paid_total
apply_inputs-IsWithin [] r c within now room = record {
  at = λ k e h. omega (arith, within.at k e h);
}
apply_inputs-IsWithin (i ∷ is) r c within (now, later) room =
    let sum : c + paid i.amount + paid_total is ≡ c + (paid i.amount + paid_total is) =
      omega arith in
    subst (λ n. IsWithin (apply_inputs (apply_input r i) is) n) sum
      (apply_inputs-IsWithin is (apply_input r i) (c + paid i.amount)
        (apply-IsWithin r i c within now (omega arith))
        (heights_up is c (c + paid i.amount) (omega arith) later) (omega arith))
