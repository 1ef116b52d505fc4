-- ===== src/Marketplace/Config.antt =====
-- `marketplacePricingSchema` of src/lib/marketplace-pricing.ts, and `rounded` and `amountFor`.
use rent_a_4_wheel.Prelude.{
  ℕ, ◌+◌, ◌*◌, ◌/◌, ◌≤◌, min, max, Bool, true, not, ◌&&◌, List, [], ◌∷◌, leb, nat_eq, list_eq, ◌==◌,
  any, length, arith,
}
use rent_a_4_wheel.Prelude.Int.{ℤ, pos_part, neg_part}

pub record Fee : Type 0 where
  pub basis_points : ℕ
  pub flat_cents : ℕ
  pub minimum_cents : ℕ
  pub maximum_cents : ℕ

pub record Subscription : Type 0 where
  pub plan : List ℕ
  pub monthly_cents : ℕ
  pub commission_reduction_bps : ℕ

pub record VolumeTier : Type 0 where
  pub completed_trips : ℕ
  pub commission_reduction_bps : ℕ

pub data Allocation : Type 0 where
  host guest platform : Allocation

pub record MarketplacePricingConfig : Type 0 where
  pub host_commission : Fee
  pub guest_service : Fee
  pub subscriptions : List Subscription
  pub volume_tiers : List VolumeTier
  pub jurisdiction_host_commission_bps : ℤ
  pub jurisdiction_guest_service_flat_cents : ℕ
  pub protection : Fee
  pub processing : Fee
  pub processing_allocation : Allocation
  pub tax_basis_points : ℕ
  pub extras_taxable : Bool
  pub guest_service_taxable : Bool
  pub protection_taxable : Bool
  pub processing_taxable : Bool
  pub risk_reserve : Fee
  pub host_share_bps : ℕ
  pub delay_days : ℕ
  pub refund_host_bps : ℕ
  pub chargeback_host_bps : ℕ
  pub reverse_transfers : Bool

abbrev pub is_cents : ℕ → Bool
is_cents n = leb n 100000000

abbrev pub is_bps : ℕ → Bool
is_bps n = leb n 10000

-- The schema `fee`, its refinement included.
unfoldable pub is_fee : Fee → Bool
is_fee f =
    is_bps f.basis_points
    && is_cents f.flat_cents
    && is_cents f.minimum_cents
    && is_cents f.maximum_cents
    && leb f.minimum_cents f.maximum_cents

unfoldable pub all_pass {ℓ} : {A : Type ℓ} → (A → Bool) → List A → Bool
all_pass p [] = true
all_pass p (x ∷ xs) = p x && all_pass p xs

is_subscription : Subscription → Bool
is_subscription s =
    leb 1 (length s.plan)
    && leb (length s.plan) 80
    && is_cents s.monthly_cents
    && is_bps s.commission_reduction_bps

is_tier : VolumeTier → Bool
is_tier t = is_bps t.commission_reduction_bps

-- `new Set(…).size === length`.
unfoldable pub distinct_plans : List Subscription → Bool
distinct_plans [] = true
distinct_plans (s ∷ ss) = not (any (λ t. t.plan == s.plan) ss) && distinct_plans ss

unfoldable pub distinct_tiers : List VolumeTier → Bool
distinct_tiers [] = true
distinct_tiers (t ∷ ts) =
    not (any (λ u. u.completed_trips == t.completed_trips) ts) && distinct_tiers ts

-- `marketplacePricingSchema.parse` accepts.
unfoldable pub is_valid_config : MarketplacePricingConfig → Bool
unfolding is_fee all_pass is_subscription is_tier distinct_plans distinct_tiers
is_valid_config c =
    is_fee c.host_commission
    && is_fee c.guest_service
    && all_pass is_subscription c.subscriptions
    && leb (length c.subscriptions) 20
    && all_pass is_tier c.volume_tiers
    && leb (length c.volume_tiers) 30
    && leb (pos_part c.jurisdiction_host_commission_bps) 10000
    && leb (neg_part c.jurisdiction_host_commission_bps) 10000
    && is_cents c.jurisdiction_guest_service_flat_cents
    && is_fee c.protection
    && is_fee c.processing
    && is_bps c.tax_basis_points
    && is_fee c.risk_reserve
    && is_bps c.host_share_bps
    && leb c.delay_days 365
    && is_bps c.refund_host_bps
    && is_bps c.chargeback_host_bps
    && distinct_plans c.subscriptions
    && distinct_tiers c.volume_tiers

-- Half-up rounding in basis points, on BigInt.
unfoldable pub rounded : ℕ → ℕ → ℕ
rounded amount rate = (amount * rate + 5000) / 10000

unfoldable pub amount_for : ℕ → Fee → ℕ
unfolding rounded
amount_for base rule =
    min rule.maximum_cents
      (max rule.minimum_cents (rounded base rule.basis_points + rule.flat_cents))

pub rounded-le : (a r : ℕ) → r ≤ 10000 → rounded a r ≤ a
unfolding rounded
rounded-le a r h = grind arith

pub amount_for-le : (b : ℕ) (f : Fee) → amount_for b f ≤ f.maximum_cents
unfolding amount_for
amount_for-le b f = omega arith
