-- ===== src/Registry/Leases.antt =====
-- What a paid payload does to the leases, on each branch, as long as no height reaches 2 ^ 64.
use xns.Common.{
  ℕ, ◌+◌, ◌*◌, ◌^◌, ◌≤◌, ◌<◌, ◌≡◌, ap, ◌≢◌, some, Bytes, same, same_iff, if◌then◌else◌, arith,
}
use xns.Common.Table.{get, get-put}
use xns.Protocol.{Payload, blocks_per_year}
use xns.Registry.{Entry, Registry, claim, renew, refuse, apply_payload}
use xns.Registry.Branches.{absent, expired, branch, claims, refuses, renews}
use xns.Registry.Ledger.{view, grant}

-- No lease runs past `c`.
pub record IsWithin (r : Registry) (c : ℕ) : Type 0 where
  pub at : (k : Bytes) (e : Entry) → get r.names k ≡ some e → e.expiration_height ≤ c

-- One payload on a registry with no lease past `c`, at a height that is not past `c` either.
module _ (r : Registry) (txid : Bytes) (height amount c years : ℕ) (p : Payload)
    (within : IsWithin r c) (now : height ≤ c) (room : c + years * blocks_per_year < 2 ^ 64) where
  claim-view :
      (k : Bytes)
      → view (claim r txid height amount years p).0 k ≡ (
          if same p.name k
          then some (record { owner = p.owner_key; expires = height + years * blocks_per_year })
          else view r k)
  unfolding claim
  claim-view k = rw get-put (ground arith)

  renew-view :
      (e : Entry) (k : Bytes)
      → get r.names p.name ≡ some e
      → view (renew r txid height amount years p e).0 k ≡ (
          if same p.name k
          then some (record {
            owner = e.owner_key;
            expires = e.expiration_height + years * blocks_per_year;
          })
          else view r k)
  unfolding renew
  renew-view e k h = rw get-put (ground (arith, within.at p.name e h))

  claim-IsWithin : IsWithin (claim r txid height amount years p).0 (c + years * blocks_per_year)
  unfolding claim
  claim-IsWithin = record { at = λ k e h. ground (arith, rw get-put at h, within.at k e) }

  renew-IsWithin :
      (e : Entry)
      → get r.names p.name ≡ some e
      → IsWithin (renew r txid height amount years p e).0 (c + years * blocks_per_year)
  unfolding renew
  renew-IsWithin e held = record {
    at = λ k e' h. ground (arith, rw get-put at h, within.at k e', within.at p.name e held);
  }

  refuse-view :
      (e : Entry) (k : Bytes)
      → get r.names p.name ≡ some e
      → height < e.expiration_height
      → e.owner_key ≢ p.owner_key
      → view r k ≡ (
          if same p.name k
          then some (grant (view r k) height p.owner_key (years * blocks_per_year))
          else view r k)
  refuse-view e k held active other = ground (
    arith,
    held,
    same_iff p.name k,
    same_iff e.owner_key p.owner_key,
    ap (get r.names) {x = p.name} {y = k},
  )

  pub apply_payload-view :
      (k : Bytes)
      → view (apply_payload r txid height amount years p).0 k ≡ (
          if same p.name k
          then some (grant (view r k) height p.owner_key (years * blocks_per_year))
          else view r k)
  apply_payload-view k = elim (branch r txid height amount years p) [
    | claims (absent free) e ↦ rw e (ground (arith, free, same_iff p.name k, claim-view k))
    | claims (expired old held late) e ↦
        rw e (ground (arith, held, same_iff p.name k, claim-view k))
    | refuses old held active other e ↦ rw e (unfold refuse in refuse-view old k held active other)
    | renews old held active mine e ↦ rw e (
        ground (
          arith,
          held,
          same_iff p.name k,
          same_iff old.owner_key p.owner_key,
          renew-view old k held,
        ))
  ]

  pub apply_payload-IsWithin :
      IsWithin (apply_payload r txid height amount years p).0 (c + years * blocks_per_year)
  apply_payload-IsWithin = elim (branch r txid height amount years p) [
    | claims free e ↦ rw e claim-IsWithin
    | refuses old held active other e ↦
        rw e (unfold refuse in record { at = λ k x h. omega (arith, within.at k x h) })
    | renews old held active mine e ↦ rw e (renew-IsWithin old held)
  ]
