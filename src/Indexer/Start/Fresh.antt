-- ===== src/Indexer/Start/Fresh.antt =====
-- What an indexer stores when it starts.
use xns.Common.{
  ℕ, ◌≡◌, ◌⊎◌, inl, inr, refl, sym, ap, subst, Bool-cases, false, Bytes, same, same_iff, Result, ok,
  ok-injective, >>=-eq-ok, arith,
}
use xns.Store.{Snapshot}
use xns.Indexer.Anchor.{IsEmpty}
use xns.Indexer.Server.{Server, snapshot_matches_chain}
use xns.Indexer.Start.{is_stale, stored_state, taken_over, first_server}

-- The store is empty, or is that of the protocol address.
abbrev pub IsOwn : Bytes → Snapshot → Type 0
IsOwn address snap = (snap.protocol_address ≡ address) ⊎ IsEmpty snap

fresh-IsOwn :
    (address : Bytes) (loaded : Snapshot) → is_stale address loaded ≡ false → IsOwn address loaded
unfolding is_stale
fresh-IsOwn address loaded h = elim (Bool-cases (same loaded.protocol_address address)) [
  | inl mine ↦ inl ((same_iff loaded.protocol_address address).0 mine)
  | inr other ↦ inr (ground (arith, h), ground (arith, h), ground (arith, h))
]

stored_state-IsOwn :
    (address : Bytes) (loaded snap : Snapshot) (reopened : Result (Unit {0}))
    → stored_state address loaded reopened ≡ ok snap
    → IsOwn address snap
unfolding stored_state
stored_state-IsOwn address loaded snap reopened h = elim (Bool-cases (is_stale address loaded)) [
  | inl stale ↦
      let (_, _, e) = >>=-eq-ok reopened _ (rw stale at h) in
      subst (IsOwn address) (ok-injective e) (inr (refl, refl, refl))
  | inr fresh ↦
      subst (IsOwn address) (ok-injective (rw fresh at h)) (fresh-IsOwn address loaded fresh)
]

-- A server that starts stores what is its own, and is not ready.
pub first_server-IsOwn :
    (address : Bytes) (loaded : Snapshot) (reopened : Result (Unit {0}))
    (block_hash : ℕ → Result Bytes) (s : Server)
    → first_server address loaded reopened block_hash ≡ ok s
    → IsOwn address s.stored × (s.ready ≡ false)
unfolding first_server
first_server-IsOwn address loaded reopened block_hash s h =
    let (snap, own, rest) = >>=-eq-ok (stored_state address loaded reopened) _ h in
    let (taken, _, e) =
      >>=-eq-ok (taken_over (snapshot_matches_chain snap block_hash) snap) _ rest in
    let same_server = ok-injective e in
    (
      subst (λ (t : Server). IsOwn address t.stored) same_server
          (stored_state-IsOwn address loaded snap reopened own),
      sym (ap (λ (t : Server). t.ready) same_server),
    )
