-- ===== src/Registry/Keys.antt =====
-- The map of a registry: each entry stands under its own name, and no name stands there twice.
use xns.Common.{
  ℕ, ◌≡◌, ◌/◌, false, refl, sym, subst, ap, ◌∙◌, none, some, List, [], ◌∷◌, Bytes, same, same_iff,
  arith, Bool-cases, Option-cases, inl, inr,
}
use mathlib.Core.Option.{some-injective}
use xns.Common.Table.{Table, get, put, get-put}
use xns.Protocol.{Payload, year_amount}
use xns.Registry.{Entry, Event, Registry, claim, renew, refuse, apply_payload}
use xns.Registry.Branches.{branch, claims, refuses, renews}
use xns.Registry.Ledger.{Input, is_payment, apply_input, apply_inputs}
use xns.Registry.Refinement.{apply-unpaid, apply-no_payload, apply-paid}

abbrev pub IsNames : Table Entry → Type 0
IsNames [] = Unit {0}
IsNames ((k, e) ∷ names) = (e.name ≡ k) × (get names k ≡ none) × IsNames names

pub get-name :
    (names : Table Entry) (name : Bytes) (e : Entry)
    → IsNames names
    → get names name ≡ some e
    → e.name ≡ name
unfolding get
get-name [] name e h found = cc
get-name ((k, e) ∷ names) name e' (p, fresh, h) found = elim (Bool-cases (same k name)) [
  | inl b ↦
      (ap (λ (x : Entry). x.name) (sym (some-injective e e' (rw b at found))) ∙ p)
      ∙ (same_iff k name).0 b
  | inr b ↦ get-name names name e' h (rw b at found)
]

put-IsNames :
    (names : Table Entry) (k : Bytes) (e : Entry)
    → IsNames names
    → e.name ≡ k
    → IsNames (put names k e)
unfolding put
put-IsNames [] k e h p = (p, unfold get in refl, tt)
put-IsNames ((j, old) ∷ names) k e (q, fresh, h) p = elim (Bool-cases (same j k)) [
  | inl b ↦ rw b (p ∙ sym ((same_iff j k).0 b), fresh, h)
  | inr b ↦
      let other : same k j ≡ false = ground (arith, b, same_iff j k, same_iff k j) in
      rw b (q, rw (get-put, other) fresh, put-IsNames names k e h p)
]

apply_payload-IsNames :
    (r : Registry) (txid : Bytes) (height amount years : ℕ) (p : Payload)
    → IsNames r.names
    → IsNames (apply_payload r txid height amount years p).0.names
apply_payload-IsNames r txid height amount years p h = elim (branch r txid height amount years p) [
  | claims free e ↦ rw e (unfold claim in put-IsNames r.names p.name _ h refl)
  | refuses old held active other e ↦ rw e (unfold refuse in h)
  | renews old held active mine e ↦
      rw e (unfold renew in put-IsNames r.names p.name _ h (get-name r.names p.name old h held))
]

apply-IsNames : (r : Registry) (i : Input) → IsNames r.names → IsNames (apply_input r i).names
apply-IsNames r i h = elim (Bool-cases (is_payment i.amount)) [
  | inl pays ↦ elim (Option-cases i.payload) [
    | inl bare ↦ subst (λ (q : Registry). IsNames q.names) (sym (apply-no_payload r i bare)) h
    | inr (p, has) ↦
        subst (λ (q : Registry × Event). IsNames q.0.names) (sym (apply-paid r i p pays has))
          (apply_payload-IsNames r i.txid i.height i.amount (i.amount / year_amount) p h)
  ]
  | inr no_pay ↦ subst (λ (q : Registry). IsNames q.names) (sym (apply-unpaid r i no_pay)) h
]

pub apply_inputs-IsNames :
    (is : List Input) (r : Registry) → IsNames r.names → IsNames (apply_inputs r is).names
unfolding apply_inputs
apply_inputs-IsNames [] r h = h
apply_inputs-IsNames (i ∷ is) r h = apply_inputs-IsNames is (apply_input r i) (apply-IsNames r i h)
