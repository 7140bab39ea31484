-- ===== src/Indexer/Owners.antt =====
-- The owners that a scan shows and stores.
use xns.Common.{ℕ, ◌≡◌, sym, subst, some, List, [], ◌∷◌, Bytes, ok, All, Bool-cases, inl, inr, leb}
use xns.Common.Table.{get}
use xns.Protocol.Owners.{IsOwner, IsOwner-decode_payload}
use xns.Registry.{Entry}
use xns.Registry.Ledger.{Input}
use xns.Registry.Owners.{PaysFor, apply_inputs-AreOwned}
use xns.Indexer.{Answers, State}
use xns.Indexer.Scan.{scan_once, durable_height}
use xns.Indexer.Replaying.{up_to, scan_once-state_of}
use xns.Indexer.Inputs.{scan_inputs-Carries}

All-up_to : (P : Input → Type 0) (h : ℕ) (is : List Input) → All P is → All P (up_to h is)
unfolding up_to
All-up_to P h [] a = a
All-up_to P h (i ∷ is) (b, a) = elim (Bool-cases (leb i.height h)) [
  | inl below ↦ rw below (b, All-up_to P h is a)
  | inr above ↦ rw above (All-up_to P h is a)
]

-- The owner keys of the entries of a state.
abbrev pub OwnersAreKeys : State → Type 0
OwnersAreKeys s = (k : Bytes) (e : Entry) → get s.names k ≡ some e → IsOwner e.owner_key

-- In both results of a scan that succeeds, every entry's owner key is the hexadecimal form of the
-- standard encoding of a point of the curve that is not the identity and whose multiple by the
-- group's order is the identity.
pub scan_once-OwnersAreKeys :
    (w : Answers) (visible durable : State) (hash : Bytes)
    → scan_once w ≡ ok (visible, durable, hash)
    → OwnersAreKeys visible × OwnersAreKeys durable
scan_once-OwnersAreKeys w visible durable hash h =
    let (height, is, _, inputs, (shown, stored)) = scan_once-state_of w visible durable hash h in
    let limit = durable_height height 10 in
    let good : All (PaysFor IsOwner) is =
      scan_inputs-Carries (λ p. IsOwner p.owner_key)
        (λ p (raw, decoded). IsOwner-decode_payload raw p decoded) w is inputs in
    (
      subst OwnersAreKeys (sym shown) ((apply_inputs-AreOwned IsOwner is good).at),
      subst OwnersAreKeys (sym stored) (
          (apply_inputs-AreOwned IsOwner (up_to limit is)
            (All-up_to (PaysFor IsOwner) limit is good)).at),
    )
