-- ===== src/Indexer/Anchor.antt =====
-- Which stored state is served at the start.
use xns.Common.{
  ℕ, ◌≡◌, ◌≢◌, ◌⊎◌, inl, inr, ◌↔◌, ap, ◌∙◌, true, false, Bytes, same_iff, same_self, Result, ok,
  ok-injective, >>=-eq-ok, Bool-cases, length, ◌==◌, ◌&&◌, ◌||◌, arith,
}
use xns.Indexer.Server.{snapshot_matches_chain}
use xns.Store.{Snapshot}

-- Nothing is stored.
abbrev pub IsEmpty : Snapshot → Type 0
IsEmpty snap = (snap.height ≡ 0) × (length snap.names ≡ 0) × (length snap.events ≡ 0)

-- The stored block is the daemon's.
abbrev pub IsAnchored : (ℕ → Result Bytes) → Snapshot → Type 0
IsAnchored block_hash snap =
    (snap.height ≢ 0) × (length snap.block_hash ≢ 0) × (block_hash snap.height ≡ ok snap.block_hash)

served :
    (snap : Snapshot) (block_hash : ℕ → Result Bytes)
    → snapshot_matches_chain snap block_hash ≡ ok true
    → IsEmpty snap ⊎ IsAnchored block_hash snap
unfolding snapshot_matches_chain
served snap block_hash h =
    elim (Bool-cases (snap.height == 0 && length snap.names == 0 && length snap.events == 0)) [
      | inl empty ↦ inl (ground arith, ground arith, ground arith)
      | inr full ↦ elim (Bool-cases (snap.height == 0 || length snap.block_hash == 0)) [
        | inl loose ↦ cc (rw (full, loose) at h)
        | inr anchored ↦
            let (hash, got, e) = >>=-eq-ok (block_hash snap.height) _ (rw (full, anchored) at h) in
            inr (
              λ z. ground arith,
              λ z. ground arith,
              got ∙ ap ok ((same_iff hash snap.block_hash).0 (ok-injective e)),
            )
      ]
    ]

serves :
    (snap : Snapshot) (block_hash : ℕ → Result Bytes)
    → IsEmpty snap ⊎ IsAnchored block_hash snap
    → snapshot_matches_chain snap block_hash ≡ ok true
unfolding snapshot_matches_chain
serves snap block_hash (inl (h, n, e)) = rw (h, n, e)
serves snap block_hash (inr (h, k, got)) =
    let full : (snap.height == 0 && length snap.names == 0 && length snap.events == 0) ≡ false =
      ground arith in
    let anchored : (snap.height == 0 || length snap.block_hash == 0) ≡ false = ground arith in
    rw (full, anchored, got, same_self)

-- snapshotMatchesChain accepts a stored state exactly if it is empty, or has a durable height and a
-- block hash and the daemon's block at that height has this hash.
pub snapshot_matches_chain_iff :
    (snap : Snapshot) (block_hash : ℕ → Result Bytes)
    → (snapshot_matches_chain snap block_hash ≡ ok true)
      ↔ (IsEmpty snap ⊎ IsAnchored block_hash snap)
snapshot_matches_chain_iff snap block_hash = (served snap block_hash, serves snap block_hash)
