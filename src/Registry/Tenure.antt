-- ===== src/Registry/Tenure.antt =====
-- Who holds a name keeps it: nobody else's transfer ends or shortens a lease that runs.
use xns.Common.{
  ℕ, ◌+◌, ◌≤◌, ◌<◌, ◌^◌, ◌≡◌, ◌∙◌, ◌&&◌, none, some, List, [], ◌∷◌, Bytes, same, same_iff,
  if◌then◌else◌, arith, All, Option-cases, inl, inr,
}
use xns.Registry.{Registry}
use xns.Registry.Ledger.{Input, Lease, Ledger, view, paid, step, steps, apply_inputs, paid_total}
use xns.Registry.Leases.{IsWithin}
use xns.Registry.Refinement.{apply_inputs-view}

-- The blocks by which a transfer lengthens the lease of `owner` on `name`.
renewal : Bytes → Bytes → Input → ℕ
renewal name owner i = elim i.payload [
  | none ↦ 0
  | some p ↦ if same p.name name && same p.owner_key owner then paid i.amount else 0
]

unfoldable pub renewals : Bytes → Bytes → List Input → ℕ
unfolding renewal
renewals name owner [] = 0
renewals name owner (i ∷ is) = renewal name owner i + renewals name owner is

step-held :
    (s : Ledger) (i : Input) (k : Bytes) (l : Lease)
    → s k ≡ some l
    → i.height < l.expires
    → step s i k ≡ some (record l { expires = l.expires + renewal k l.owner i })
unfolding step renewal
step-held s i k l held active = elim (Option-cases i.payload) [
  | inl bare ↦ ground (arith, bare, held)
  | inr (p, has) ↦
      ground (arith, has, held, same_iff l.owner p.owner_key, same_iff p.owner_key l.owner)
]

All-longer :
    (is : List Input) (m n : ℕ)
    → m ≤ n
    → All (λ (i : Input). i.height < m) is
    → All (λ (i : Input). i.height < n) is
All-longer [] m n h a = tt
All-longer (i ∷ is) m n h (a, as') = (omega arith, All-longer is m n h as')

steps-held :
    (is : List Input) (s : Ledger) (k : Bytes) (l : Lease)
    → s k ≡ some l
    → All (λ (i : Input). i.height < l.expires) is
    → steps s is k ≡ some (record l { expires = l.expires + renewals k l.owner is })
unfolding steps renewals
steps-held [] s k l held active = ground (arith, held)
steps-held (i ∷ is) s k l held (now, later) =
    let longer : Lease = record l { expires = l.expires + renewal k l.owner i } in
    steps-held is (step s i) k longer (step-held s i k l held now)
      (All-longer is l.expires longer.expires (omega arith) later)
    ∙ ground arith

-- While a lease runs, whatever transfers come, its owner stays, and it ends as many blocks later as
-- the owner's own transfers for the name paid for. `c` bounds all leases and heights, and what is
-- paid must not carry it to 2 ^ 64.
pub unseizable :
    (r : Registry) (c : ℕ) (is : List Input) (name : Bytes) (l : Lease)
    → IsWithin r c
    → All (λ (i : Input). i.height ≤ c) is
    → c + paid_total is < 2 ^ 64
    → view r name ≡ some l
    → All (λ (i : Input). i.height < l.expires) is
    → view (apply_inputs r is) name
      ≡ some (record { owner = l.owner; expires = l.expires + renewals name l.owner is })
unseizable r c is name l within heights room held active =
    apply_inputs-view is r c within heights room name ∙ steps-held is (view r) name l held active
