-- ===== src/Registry/Branches.antt =====
-- The three things that a paid payload can do: claim a free name, be refused, or renew a lease.
use xns.Common.{
  ℕ, ◌≤◌, ◌<◌, ◌≡◌, ◌≢◌, none, some, Bytes, same, same_iff, leb, Bool-cases, Option-cases, inl, inr,
  arith,
}
use xns.Common.Table.{get}
use xns.Protocol.{Payload}
use xns.Registry.{Entry, Registry, apply_payload, claim, renew, refuse}

-- Nobody holds a lease on the name at the height.
pub data IsFree (r : Registry) (name : Bytes) (height : ℕ) : Type 0 where
  absent : get r.names name ≡ none → IsFree r name height
  expired :
      (e : Entry) → get r.names name ≡ some e → e.expiration_height ≤ height → IsFree r name height

pub data Branch (r : Registry) (txid : Bytes) (height amount years : ℕ) (p : Payload) : Type 0 where
  claims :
      IsFree r p.name height
      → apply_payload r txid height amount years p ≡ claim r txid height amount years p
      → Branch r txid height amount years p
  refuses :
      (e : Entry)
      → get r.names p.name ≡ some e
      → height < e.expiration_height
      → e.owner_key ≢ p.owner_key
      → apply_payload r txid height amount years p ≡ refuse r txid height amount years p e
      → Branch r txid height amount years p
  renews :
      (e : Entry)
      → get r.names p.name ≡ some e
      → height < e.expiration_height
      → e.owner_key ≡ p.owner_key
      → apply_payload r txid height amount years p ≡ renew r txid height amount years p e
      → Branch r txid height amount years p

module _ (r : Registry) (txid : Bytes) (height amount years : ℕ) (p : Payload) where
  held-Branch : (e : Entry) → get r.names p.name ≡ some e → Branch r txid height amount years p
  unfolding apply_payload
  held-Branch e held = elim (Bool-cases (leb e.expiration_height height)) [
    | inl late ↦ claims (expired e held (ground arith)) (ground arith)
    | inr active ↦ elim (Bool-cases (same e.owner_key p.owner_key)) [
      | inl mine ↦ renews e held (ground arith) ((same_iff _ _).0 mine) (ground arith)
      | inr other ↦
          refuses e held (ground arith)
            (λ eq. ground (arith, (same_iff e.owner_key p.owner_key).1 eq)) (ground arith)
    ]
  ]

  pub branch : Branch r txid height amount years p
  unfolding apply_payload
  branch = elim (Option-cases (get r.names p.name)) [
    | inl free ↦ claims (absent free) (ground arith)
    | inr (e, held) ↦ held-Branch e held
  ]
