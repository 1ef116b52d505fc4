-- ===== src/Marketplace/Refund.antt =====
-- src/lib/marketplace-refund-allocation.ts: how a refund is taken from the frozen amounts.
pub mod Shares
pub mod Choice
pub mod Caps
pub mod Totals
pub mod Full
use rent_a_4_wheel.Prelude.{
  ℕ, zero, suc, ◌+◌, ◌-◌, ◌*◌, ◌/◌, ◌≤◌, min, ◌≡◌, Bool, true, false, ◌&&◌, List, [], ◌∷◌, map, ltb,
  leb, sum_by, if◌then◌else◌, Result, ok, err, guard, ◌>>=◌, ◌>>◌,
}
use rent_a_4_wheel.Marketplace.Config.{rounded}
use rent_a_4_wheel.Marketplace.Price.{Amounts, is_safe_integer}

pub record RefundAllocation : Type 0 where
  pub tax : ℕ
  pub protection : ℕ
  pub reserve : ℕ
  pub host : ℕ
  pub platform_fees : ℕ
  pub platform_cost : ℕ
  pub discount : ℕ

pub data AllocationError : Type 0 where
  invalid_refund_allocation requires_review : AllocationError

-- `empty_refund_allocation()`.
abbrev pub empty_refund_allocation : RefundAllocation
empty_refund_allocation = record {
  tax = 0;
  protection = 0;
  reserve = 0;
  host = 0;
  platform_fees = 0;
  platform_cost = 0;
  discount = 0;
}

-- A key's weight and the cents that it has so far.
pub record Share : Type 0 where
  pub weight : ℕ
  pub cents : ℕ

-- The chain of `take`: each value as far as what remains, and at the end what remains.
unfoldable pub take_each : ℕ → List ℕ → List ℕ
take_each remaining [] = remaining ∷ []
take_each remaining (v ∷ vs) = min remaining v ∷ take_each (remaining - min remaining v) vs

-- tax, protection, reserve, host and platform fees, in this order.
unfoldable pub liabilities : Amounts → (refund_host_bps host_entitlement : ℕ) → List ℕ
liabilities a refund_host_bps host_entitlement =
    (a.rental_tax_cents + a.fee_tax_cents)
    ∷ a.protection_cents
    ∷ a.risk_reserve_cents
    ∷ min host_entitlement (rounded a.host_net_cents refund_host_bps)
    ∷ (a.commission_cents + a.guest_service_cents)
    ∷ []

-- The lower quotas.
unfoldable pub quotas : (budget total : ℕ) → List ℕ → List Share
quotas budget total [] = []
quotas budget total (w ∷ ws) =
    record { weight = w; cents = budget * w / total } ∷ quotas budget total ws

-- `weights[key] * (result[chosen] + 1) > weights[chosen] * (result[key] + 1)`.
unfoldable pub beats : Share → Share → Bool
beats key chosen = ltb (chosen.weight * (key.cents + 1)) (key.weight * (chosen.cents + 1))

-- The inner loop from `key i` on: the place of the chosen key.
unfoldable pub choose : Share → ℕ → ℕ → List Share → ℕ
unfolding beats
choose chosen at_ i [] = at_
choose chosen at_ i (key ∷ keys) =
    choose (if beats key chosen then key else chosen) (if beats key chosen then i else at_) (suc i)
      keys

-- `result[chosen]++`.
unfoldable pub bump : ℕ → List Share → List Share
bump i [] = []
bump zero (s ∷ ss) = record s { cents = s.cents + 1 } ∷ ss
bump (suc i) (s ∷ ss) = s ∷ bump i ss

-- One round of the outer loop; it starts from the first key.
unfoldable pub assign_one : List Share → List Share
unfolding choose bump
assign_one [] = []
assign_one (s ∷ ss) = bump (choose s 0 1 ss) (s ∷ ss)

-- `while (unassigned-- > 0)`.
unfoldable pub assign : ℕ → List Share → List Share
unfolding assign_one
assign zero ss = ss
assign (suc n) ss = assign n (assign_one ss)

unfoldable pub cents_of : Share → ℕ
cents_of s = s.cents

unfoldable pub weight_of : Share → ℕ
weight_of s = s.weight

unfoldable pub apportion : (budget total : ℕ) → List ℕ → List Share
unfolding quotas assign cents_of
apportion budget total ws =
    let start : List Share = quotas budget total ws in assign (budget - sum_by cents_of start) start

-- `result[key]`, by the place of the key.
abbrev pub result_at : ℕ → List Share → ℕ
result_at i [] = 0
result_at zero (s ∷ ss) = s.cents
result_at (suc i) (s ∷ ss) = result_at i ss

-- `{ ...result, discount }`.
abbrev pub of_shares : List Share → ℕ → RefundAllocation
of_shares ss d = record {
  tax = result_at 0 ss;
  protection = result_at 1 ss;
  reserve = result_at 2 ss;
  host = result_at 3 ss;
  platform_fees = result_at 4 ss;
  platform_cost = result_at 5 ss;
  discount = d;
}

-- The weights: the liabilities as far as the gross allows, and the platform's cost.
unfoldable pub weights : Amounts → (paid refund_host_bps host_entitlement : ℕ) → List ℕ
unfolding take_each liabilities
weights a paid refund_host_bps host_entitlement =
    take_each (paid + a.platform_discount_cents) (liabilities a refund_host_bps host_entitlement)

unfoldable pub marketplace_refund_allocation :
    Amounts
    → (cash paid refund_host_bps host_entitlement : ℕ) → Result AllocationError RefundAllocation
unfolding weights apportion
marketplace_refund_allocation a cash paid refund_host_bps host_entitlement = do
  guard (is_safe_integer cash && is_safe_integer paid && leb 1 paid && leb cash paid)
      invalid_refund_allocation
  let discount = cash * a.platform_discount_cents / paid
  let shares =
      apportion (cash + discount) (paid + a.platform_discount_cents)
        (weights a paid refund_host_bps host_entitlement)
  ok (of_shares shares discount)
