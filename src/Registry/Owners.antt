-- ===== src/Registry/Owners.antt =====
-- The owners in a registry come from the payloads.
use xns.Common.{
  ℕ, ◌≡◌, sym, subst, some, List, [], ◌∷◌, Bytes, All, Bool-cases, Option-cases, inl, inr, ◌/◌,
}
use xns.Common.Table.{get, get-nil, put, put-inversion}
use xns.Protocol.{Payload, year_amount}
use xns.Registry.{new_registry, Entry, Event, Registry, claim, renew, refuse, apply_payload}
use xns.Registry.Branches.{branch, claims, refuses, renews}
use xns.Registry.Ledger.{Input, is_payment, apply_input, apply_inputs}
use xns.Registry.Refinement.{apply-unpaid, apply-no_payload, apply-paid}

-- A predicate on owner keys.
module _ (P : Bytes → Type 0) where
  -- The payload of an input, if it has one, has such an owner; every entry has.
  abbrev pub PaysFor : Input → Type 0
  PaysFor i = (p : Payload) → i.payload ≡ some p → P p.owner_key

  pub record AreOwned (r : Registry) : Type 0 where
    pub at : (k : Bytes) (e : Entry) → get r.names k ≡ some e → P e.owner_key

  put-AreOwned :
      (r : Registry) (name : Bytes) (v : Entry)
      → AreOwned r
      → P v.owner_key
      → AreOwned (record { names = put r.names name v })
  put-AreOwned r name v owned new = record {
    at = λ k e found. elim (put-inversion r.names name k v e found) [
      | inl (_, is_new) ↦ subst (λ (x : Entry). P x.owner_key) is_new new
      | inr old ↦ owned.at k e old
    ];
  }

  apply_payload-AreOwned :
      (r : Registry) (txid : Bytes) (height amount years : ℕ) (p : Payload)
      → AreOwned r
      → P p.owner_key
      → AreOwned (apply_payload r txid height amount years p).0
  unfolding claim renew refuse
  apply_payload-AreOwned r txid height amount years p owned new =
      elim (branch r txid height amount years p) [
        | claims free e ↦ rw e (put-AreOwned r p.name _ owned new)
        | refuses old held active other e ↦ rw e owned
        | renews old held active mine e ↦
            rw e (put-AreOwned r p.name _ owned (owned.at p.name old held))
      ]

  apply_input-AreOwned :
      (r : Registry) (i : Input) → AreOwned r → PaysFor i → AreOwned (apply_input r i)
  apply_input-AreOwned r i owned good = elim (Bool-cases (is_payment i.amount)) [
    | inl pays ↦ elim (Option-cases i.payload) [
      | inl bare ↦ subst AreOwned (sym (apply-no_payload r i bare)) owned
      | inr (p, has) ↦
          subst (λ (q : Registry × Event). AreOwned q.0) (sym (apply-paid r i p pays has))
            (apply_payload-AreOwned r i.txid i.height i.amount (i.amount / year_amount) p owned
              (good p has))
    ]
    | inr no_pay ↦ subst AreOwned (sym (apply-unpaid r i no_pay)) owned
  ]

  apply_inputs-AreOwned_from :
      (is : List Input) (r : Registry) → AreOwned r → All PaysFor is → AreOwned (apply_inputs r is)
  unfolding apply_inputs
  apply_inputs-AreOwned_from [] r owned good = owned
  apply_inputs-AreOwned_from (i ∷ is) r owned (g, good) =
      apply_inputs-AreOwned_from is (apply_input r i) (apply_input-AreOwned r i owned g) good

  -- After any transfers, every owner in the registry is that of a payload.
  pub apply_inputs-AreOwned :
      (is : List Input) → All PaysFor is → AreOwned (apply_inputs new_registry is)
  apply_inputs-AreOwned is good =
      apply_inputs-AreOwned_from is new_registry
        (record { at = λ k e found. cc (get-nil {V = Entry} k) }) good
