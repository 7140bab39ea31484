-- ===== src/Registry.antt =====
-- pkg/xns/registry.go: what one transfer to the protocol address does to the registry.
pub mod Tenure
pub mod Soundness
pub mod Keys
pub mod Refinement
pub mod Branches
pub mod Ledger
pub mod Leases
pub mod Owners
use xns.Common.{
  ℕ, ◌+◌, ◌*◌, ◌%◌, ◌^◌, not, Option, none, some, List, [], ◌∷◌, ◌++◌, Bytes, codes, same, leb,
  if◌then◌else◌,
}
use xns.Common.Table.{Table, get, put}
use xns.Messages.{message}
use xns.Protocol.{Payload, blocks_per_year, years_from_amount}

-- The values of `Event.Action`.
pub data Action : Type 0 where
  ignored claimed renewed : Action

pub record Event : Type 0 where
  pub txid : Bytes
  pub height : ℕ
  pub amount : ℕ
  pub years : ℕ
  pub name : Bytes
  pub owner_key : Bytes
  pub action : Action
  pub reason : Bytes
  pub previous_expiration_height : ℕ
  pub expiration_height : ℕ

pub record Entry : Type 0 where
  pub name : Bytes
  pub owner_key : Bytes
  pub expiration_height : ℕ
  pub first_claim_height : ℕ
  pub last_update_height : ℕ
  pub source_txids : List Bytes

pub record Registry : Type 0 where
  pub names : Table Entry

abbrev pub new_registry : Registry
new_registry = record { names = [] }

-- An event with the fields that every literal gives, and Go's zero for the others.
abbrev pub bare_event : Bytes → ℕ → ℕ → Action → Event
bare_event txid height amount action = record {
  txid = txid;
  height = height;
  amount = amount;
  years = 0;
  name = [];
  owner_key = [];
  action = action;
  reason = [];
  previous_expiration_height = 0;
  expiration_height = 0;
}

-- `years * BlocksPerYear` in a uint64.
abbrev pub extension : ℕ → ℕ
extension years = years * blocks_per_year % 2 ^ 64

-- The name is free: `!ok || existing.ExpirationHeight <= height`.
unfoldable pub claim : Registry → Bytes → ℕ → ℕ → ℕ → Payload → Registry × Event
claim r txid height amount years p =
    let expires = (height + extension years) % 2 ^ 64 in
    (
      record {
        names = put r.names p.name (record {
          name = p.name;
          owner_key = p.owner_key;
          expiration_height = expires;
          first_claim_height = height;
          last_update_height = height;
          source_txids = txid ∷ [];
        });
      },
      record (bare_event txid height amount claimed) {
        years = years;
        name = p.name;
        owner_key = p.owner_key;
        expiration_height = expires;
      },
    )

unfoldable pub renew : Registry → Bytes → ℕ → ℕ → ℕ → Payload → Entry → Registry × Event
renew r txid height amount years p existing =
    let expires = (existing.expiration_height + extension years) % 2 ^ 64 in
    (
      record {
        names = put r.names p.name (record existing {
          expiration_height = expires;
          last_update_height = height;
          source_txids = existing.source_txids ++ txid ∷ [];
        });
      },
      record (bare_event txid height amount renewed) {
        years = years;
        name = p.name;
        owner_key = p.owner_key;
        previous_expiration_height = existing.expiration_height;
        expiration_height = expires;
      },
    )

unfoldable pub refuse : Registry → Bytes → ℕ → ℕ → ℕ → Payload → Entry → Registry × Event
refuse r txid height amount years p existing = (
  r,
  record (bare_event txid height amount ignored) {
    years = years;
    name = p.name;
    owner_key = p.owner_key;
    reason = codes "name is already active for a different owner";
    previous_expiration_height = existing.expiration_height;
  },
)

unfoldable pub apply_payload : Registry → Bytes → ℕ → ℕ → ℕ → Payload → Registry × Event
unfolding refuse
apply_payload r txid height amount years p = elim (get r.names p.name) [
  | none ↦ claim r txid height amount years p
  | some existing ↦
      if leb existing.expiration_height height
      then claim r txid height amount years p
      else if not (same existing.owner_key p.owner_key)
      then refuse r txid height amount years p existing
      else renew r txid height amount years p existing
]

-- The reason of a transfer with no payload.
missing_reason : Bytes → Bytes
missing_reason [] = codes "missing XNS payload"
missing_reason (c ∷ cs) = c ∷ cs

unfoldable pub apply : Registry → Bytes → ℕ → ℕ → Option Payload → Bytes → Registry × Event
unfolding apply_payload missing_reason
apply r txid height amount payload invalid =
    let (years, failed) = years_from_amount amount in
    elim failed [
      | some e ↦ (r, record (bare_event txid height amount ignored) { reason = message e })
      | none ↦ elim payload [
        | none ↦ (
          r,
          record (bare_event txid height amount ignored) {
            years = years;
            reason = missing_reason invalid;
          },
        )
        | some p ↦ apply_payload r txid height amount years p
      ]
    ]
