-- ===== src/Registry/Soundness.antt =====
-- What every entry of a registry is like, after any transfers in the order of their heights.
use xns.Common.{
  ℕ, ◌+◌, ◌*◌, ◌/◌, ◌≤◌, ◌<◌, ◌^◌, ◌≡◌, ◌≢◌, refl, sym, subst, some, List, [], ◌∷◌, ◌++◌, Bytes,
  arith, All, Bool-cases, Option-cases, inl, inr,
}
use xns.Common.Table.{get, get-nil, put, put-inversion}
use xns.Protocol.{Payload, year_amount, blocks_per_year}
use xns.Protocol.Names.{IsName}
use xns.Registry.{new_registry, Entry, Event, Registry, claim, renew, refuse, apply_payload}
use xns.Registry.Branches.{branch, claims, refuses, renews}
use xns.Registry.Ledger.{Input, is_payment, paid, apply_input, apply_inputs, paid_total}
use xns.Registry.Leases.{IsWithin}
use xns.Registry.Refinement.{apply-unpaid, apply-no_payload, apply-paid, apply-IsWithin, heights_up}

-- An entry stands under its own name, which is allowed. It was claimed, then updated, at heights up
-- to `h`, the lease runs past its last update, and some transaction made it.
pub record IsEntry (h : ℕ) (k : Bytes) (e : Entry) : Type 0 where
  pub keyed : e.name ≡ k
  pub named : IsName k
  pub ordered : e.first_claim_height ≤ e.last_update_height
  pub past : e.last_update_height ≤ h
  pub leased : e.last_update_height < e.expiration_height
  pub sourced : e.source_txids ≢ []

pub record IsSound (r : Registry) (h : ℕ) : Type 0 where
  pub at : (k : Bytes) (e : Entry) → get r.names k ≡ some e → IsEntry h k e

later-IsEntry : {h h' : ℕ} {k : Bytes} {e : Entry} → h ≤ h' → IsEntry h k e → IsEntry h' k e
later-IsEntry up s = record {
  keyed = s.keyed;
  named = s.named;
  ordered = s.ordered;
  past = omega (arith, s.past);
  leased = s.leased;
  sourced = s.sourced;
}

append-ne-nil : (xs : List Bytes) (x : Bytes) → xs ++ x ∷ [] ≢ []
append-ne-nil [] x e = cc
append-ne-nil (y ∷ xs) x e = cc

put-IsSound :
    (r : Registry) (h h' : ℕ) (name : Bytes) (v : Entry)
    → IsSound r h
    → h ≤ h'
    → IsEntry h' name v
    → IsSound (record { names = put r.names name v }) h'
put-IsSound r h h' name v sound up new = record {
  at = λ k e found. elim (put-inversion r.names name k v e found) [
    | inl (at_name, is_new) ↦
        subst (λ j. IsEntry h' j e) at_name (subst (λ w. IsEntry h' name w) is_new new)
    | inr old ↦ later-IsEntry up (sound.at k e old)
  ];
}

module _ (r : Registry) (txid : Bytes) (h height amount c years : ℕ) (p : Payload)
    (sound : IsSound r h) (up : h ≤ height) (named : IsName p.name) (pays : 1 ≤ years)
    (within : IsWithin r c) (now : height ≤ c) (room : c + years * blocks_per_year < 2 ^ 64) where
  claim-IsSound : IsSound (claim r txid height amount years p).0 height
  unfolding claim
  claim-IsSound = put-IsSound r h height p.name _ sound up (record {
    keyed = refl;
    named = named;
    ordered = omega arith;
    past = omega arith;
    leased = omega arith;
    sourced = λ e. cc;
  })

  renew-IsSound :
      (e : Entry)
      → get r.names p.name ≡ some e
      → height < e.expiration_height
      → IsSound (renew r txid height amount years p e).0 height
  unfolding renew
  renew-IsSound e held active =
      let old = sound.at p.name e held in
      let bound = within.at p.name e held in
      put-IsSound r h height p.name _ sound up (record {
        keyed = old.keyed;
        named = named;
        ordered = omega (arith, old.ordered, old.past);
        past = omega arith;
        leased = omega (arith, bound);
        sourced = append-ne-nil e.source_txids txid;
      })

  pub apply_payload-IsSound : IsSound (apply_payload r txid height amount years p).0 height
  apply_payload-IsSound = elim (branch r txid height amount years p) [
    | claims free e ↦ rw e claim-IsSound
    | refuses old held active other e ↦
        rw e (unfold refuse in record { at = λ k x found. later-IsEntry up (sound.at k x found) })
    | renews old held active mine e ↦ rw e (renew-IsSound old held active)
  ]

-- One transfer, and any transfers, in the order of their heights.
abbrev pub HasName : Input → Type 0
HasName i = (p : Payload) → i.payload ≡ some p → IsName p.name

abbrev pub Ascending : ℕ → List Input → Type 0
Ascending h [] = Unit {0}
Ascending h (i ∷ is) = (h ≤ i.height) × Ascending i.height is

later-IsSound : (r : Registry) (h h' : ℕ) → h ≤ h' → IsSound r h → IsSound r h'
later-IsSound r h h' up sound = record { at = λ k x found. later-IsEntry up (sound.at k x found) }

module _ (r : Registry) (i : Input) (h c : ℕ) (sound : IsSound r h) (up : h ≤ i.height)
    (named : HasName i) (within : IsWithin r c) (now : i.height ≤ c)
    (room : c + paid i.amount < 2 ^ 64) where
  apply-IsSound : IsSound (apply_input r i) i.height
  apply-IsSound = elim (Bool-cases (is_payment i.amount)) [
    | inl pays ↦ elim (Option-cases i.payload) [
      | inl bare ↦
          subst (λ q. IsSound q i.height) (sym (apply-no_payload r i bare))
            (later-IsSound r h i.height up sound)
      | inr (p, has) ↦
          subst (λ (q : Registry × Event). IsSound q.0 i.height) (sym (apply-paid r i p pays has))
            (apply_payload-IsSound r i.txid h i.height i.amount c (i.amount / year_amount) p sound
              up (named p has) (ground arith) within now (ground arith))
    ]
    | inr no_pay ↦
        subst (λ q. IsSound q i.height) (sym (apply-unpaid r i no_pay))
          (later-IsSound r h i.height up sound)
  ]

unfoldable pub last_height : ℕ → List Input → ℕ
last_height h [] = h
last_height h (i ∷ is) = last_height i.height is

apply_inputs-IsSound_from :
    (is : List Input) (r : Registry) (h c : ℕ)
    → IsSound r h
    → IsWithin r c
    → All HasName is
    → Ascending h is
    → All (λ (i : Input). i.height ≤ c) is
    → c + paid_total is < 2 ^ 64
    → IsSound (apply_inputs r is) (last_height h is)
unfolding apply_inputs paid_total last_height
apply_inputs-IsSound_from [] r h c sound within named up now room = sound
apply_inputs-IsSound_from (i ∷ is) r h c sound within (n, named) (u, up) (t, now) room =
    apply_inputs-IsSound_from is (apply_input r i) i.height (c + paid i.amount)
      (apply-IsSound r i h c sound u n within t (omega arith))
      (apply-IsWithin r i c within t (omega arith)) named up
      (heights_up is c (c + paid i.amount) (omega arith) now) (omega arith)

-- After any transfers in the order of their heights, every entry of the registry is as `IsEntry`
-- says, if the payloads have allowed names and no height can reach 2 ^ 64.
pub apply_inputs-IsSound :
    (is : List Input) (c : ℕ)
    → All HasName is
    → Ascending 0 is
    → All (λ (i : Input). i.height ≤ c) is
    → c + paid_total is < 2 ^ 64
    → IsSound (apply_inputs new_registry is) (last_height 0 is)
apply_inputs-IsSound is c named up now room =
    apply_inputs-IsSound_from is new_registry 0 c
      (record { at = λ k e found. cc (get-nil {V = Entry} k) })
      (record { at = λ k e found. cc (get-nil {V = Entry} k) }) named up now room
