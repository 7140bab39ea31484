-- ===== src/Registry/Ledger.antt =====
-- What the registry promises, apart from the code: a lease for each name, in unbounded numbers.
use xns.Common.{
  ℕ, ◌+◌, ◌*◌, ◌/◌, ◌%◌, Bool, ◌&&◌, Option, none, some, List, [], ◌∷◌, Bytes, same, leb, ltb, ◌==◌,
  if◌then◌else◌,
}
use xns.Common.Table.{get}
use xns.Protocol.{Payload, year_amount, blocks_per_year}
use xns.Registry.{Entry, Registry, apply}

-- One transfer to the protocol address, with the payload found in it or the reason why there is none.
pub record Input : Type 0 where
  pub txid : Bytes
  pub height : ℕ
  pub amount : ℕ
  pub payload : Option Payload
  pub invalid : Bytes

pub record Lease : Type 0 where
  pub owner : Bytes
  pub expires : ℕ

abbrev pub Ledger : Type 0
Ledger = Bytes → Option Lease

abbrev pub lease_of : Option Entry → Option Lease
lease_of none = none
lease_of (some e) = some (record { owner = e.owner_key; expires = e.expiration_height })

-- The leases that a registry stands for.
abbrev pub view : Registry → Ledger
view r k = lease_of (get r.names k)

-- The amount is a whole number of years, and not 0.
abbrev pub is_payment : ℕ → Bool
is_payment amount = leb year_amount amount && amount % year_amount == 0

-- The blocks that an amount pays for.
abbrev pub paid : ℕ → ℕ
paid amount = if is_payment amount then amount / year_amount * blocks_per_year else 0

-- Who holds a lease keeps it until it runs out, and may lengthen it; a free name goes to the payer.
abbrev pub grant : Option Lease → ℕ → Bytes → ℕ → Lease
grant none height owner blocks = record { owner = owner; expires = height + blocks }
grant (some l) height owner blocks =
    if ltb height l.expires
    then (if same l.owner owner then record l { expires = l.expires + blocks } else l)
    else record { owner = owner; expires = height + blocks }

unfoldable pub step : Ledger → Input → Ledger
step s i k = elim i.payload [
  | none ↦ s k
  | some p ↦
      if is_payment i.amount && same p.name k
      then some (grant (s k) i.height p.owner_key (paid i.amount))
      else s k
]

unfoldable pub steps : Ledger → List Input → Ledger
steps s [] = s
steps s (i ∷ is) = steps (step s i) is

-- The code's registry after one transfer, and after all.
abbrev pub apply_input : Registry → Input → Registry
apply_input r i = (apply r i.txid i.height i.amount i.payload i.invalid).0

unfoldable pub apply_inputs : Registry → List Input → Registry
apply_inputs r [] = r
apply_inputs r (i ∷ is) = apply_inputs (apply_input r i) is

-- The blocks that all transfers pay for.
unfoldable pub paid_total : List Input → ℕ
paid_total [] = 0
paid_total (i ∷ is) = paid i.amount + paid_total is
