-- ===== src/Tests/Registry.antt =====
-- Runs of pkg/xns/registry.go.
use xns.Common.{ℕ, ◌+◌, ◌≡◌, refl, ap, subst, index, same, some, Bytes, [], ◌∷◌, List, arith}
use xns.Protocol.{Payload, valid_name, is_name_char}
use xns.Protocol.Names.{IsName, valid_name_iff}
use xns.Registry.{Entry, Registry, new_registry}
use xns.Common.Table.{get}
use mathlib.Core.Option.{some-injective}
use xns.Registry.Ledger.{Input, view, steps, apply_inputs, paid_total}
use xns.Registry.Leases.{IsWithin}
use xns.Registry.Refinement.{apply_inputs-view, apply_inputs-IsWithin}
use xns.Registry.Tenure.{unseizable, renewals}
use xns.Registry.Soundness.{apply_inputs-IsSound, IsSound, HasName, last_height}
use xns.Tests.Data.{name}

abbrev alice : Bytes
alice = b'a' ∷ []

abbrev bob : Bytes
bob = b'b' ∷ []

-- A payment of one year for the name, at a height.
abbrev paying : ℕ → Bytes → Input
paying height owner = record {
  txid = b't' ∷ [];
  height = height;
  amount = 10_000_000_000;
  payload = some (record { name = name; owner_key = owner; payload_hex = [] });
  invalid = [];
}

-- An attempt to take the name, a renewal of one year, and a payment that is too low.
abbrev later : List Input
later = paying 6 bob ∷ paying 7 alice ∷ record (paying 8 alice) { amount = 5 } ∷ []

abbrev pub held : Entry
held = record {
  name = name;
  owner_key = alice;
  expiration_height = 262805;
  first_claim_height = 5;
  last_update_height = 5;
  source_txids = (b't' ∷ []) ∷ [];
}

abbrev pub one_name : Registry
one_name = record { names = (name, held) ∷ [] }

one_name-IsWithin : IsWithin one_name 262805
unfolding get
one_name-IsWithin = record { at = λ k e h. ground arith }

holds : view one_name name ≡ some (record { owner = alice; expires = 262805 })
unfolding get same
holds = refl

unseizable_example :
    view (apply_inputs one_name later) name
    ≡ some (record { owner = alice; expires = 262805 + renewals name alice later })
unfolding paid_total
unseizable_example =
    unseizable one_name 262805 later name (record { owner = alice; expires = 262805 })
      one_name-IsWithin (omega arith) (omega arith) holds (omega arith)

-- The blocks of one year: the renewal counts, the two others do not.
renewals_run : renewals name alice later ≡ 262800
unfolding renewals same
renewals_run = refl

apply_inputs-IsWithin_example : IsWithin (apply_inputs one_name later) (262805 + paid_total later)
apply_inputs-IsWithin_example =
    apply_inputs-IsWithin later one_name 262805 one_name-IsWithin
      (omega arith, (omega arith, (omega arith, tt))) (unfold paid_total in omega arith)

apply_inputs-view_example :
    view (apply_inputs one_name later) name ≡ steps (view one_name) later name
unfolding paid_total
apply_inputs-view_example =
    apply_inputs-view later one_name 262805 one_name-IsWithin (omega arith) (omega arith) name

named : IsName name
named = (valid_name_iff name).0 (unfold valid_name is_name_char index in refl)

paying-HasName : (height : ℕ) (owner : Bytes) → HasName (paying height owner)
paying-HasName height owner p e =
    subst IsName (ap (λ (q : Payload). q.name) (some-injective _ p e)) named

apply_inputs-IsSound_example :
    IsSound
      (apply_inputs new_registry (paying 5 alice ∷ paying 6 bob ∷ []))
      (last_height 0 (paying 5 alice ∷ paying 6 bob ∷ []))
unfolding paid_total
apply_inputs-IsSound_example =
    apply_inputs-IsSound (paying 5 alice ∷ paying 6 bob ∷ []) 100
      (paying-HasName 5 alice, (paying-HasName 6 bob, tt)) (omega arith) (omega arith) (omega arith)
