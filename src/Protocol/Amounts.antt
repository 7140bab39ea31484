-- ===== src/Protocol/Amounts.antt =====
-- Amounts and years.
use xns.Common.{ℕ, ◌*◌, ◌≤◌, ◌≡◌, ◌↔◌, none, arith}
use xns.Protocol.{years_from_amount, year_amount}

-- An amount pays for `y` years exactly when it is `y` times the price, and `y` is not 0.
pub years_from_amount_iff :
    (amount y : ℕ) → (years_from_amount amount ≡ (y, none)) ↔ ((1 ≤ y) × (amount ≡ y * year_amount))
unfolding years_from_amount
years_from_amount_iff amount y = (λ h. ground arith, λ h. ground arith)
