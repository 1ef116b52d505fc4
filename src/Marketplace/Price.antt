-- ===== src/Marketplace/Price.antt =====
-- `calculateMarketplacePrice` of src/lib/marketplace-pricing.ts.
use rent_a_4_wheel.Prelude.{
  ℕ, ◌+◌, ◌-◌, min, Bool, ◌&&◌, Option, none, some, List, [], ◌∷◌, leb, nat_eq, list_eq, option_eq,
  ◌==◌, find, if◌then◌else◌, Result, ok, guard, ◌>>◌,
}
use rent_a_4_wheel.Prelude.Int.{pos, pos_part, ◌+ℤ◌, ◌-ℤ◌}
use rent_a_4_wheel.Marketplace.Config.{
  Subscription, VolumeTier, Allocation, host, guest, platform, MarketplacePricingConfig,
  is_valid_config, rounded, amount_for,
}

pub data PricingError : Type 0 where
  invalid_config invalid_facts invalid_amount discount_exceeds_rental : PricingError
  policy_exceeds_host_earnings limit_exceeded : PricingError

-- Number.isSafeInteger, of a number that is not negative.
abbrev pub is_safe_integer : ℕ → Bool
is_safe_integer n = leb n 9007199254740991

-- The columns of the breakdown that the calculation reads.
pub record BasePrice : Type 0 where
  pub subtotal_cents : ℕ
  pub extras_cents : ℕ
  pub discount_cents : ℕ
  pub deposit_cents : ℕ

pub record Facts : Type 0 where
  pub completed_trips : ℕ
  pub subscription_plan : Option (List ℕ)

-- FinanceTerms["amounts"] of src/lib/finance-rules.ts. An amount that is left out there is 0 here, as
-- every reader of it has `?? 0`.
pub record Amounts : Type 0 where
  pub gross_cents : ℕ
  pub host_discount_cents : ℕ
  pub platform_discount_cents : ℕ
  pub commission_cents : ℕ
  pub host_net_cents : ℕ
  pub rental_tax_cents : ℕ
  pub fee_tax_cents : ℕ
  pub fees_cents : ℕ
  pub total_cents : ℕ
  pub guest_service_cents : ℕ
  pub protection_cents : ℕ
  pub guest_processing_cents : ℕ
  pub host_processing_cents : ℕ
  pub platform_processing_cents : ℕ
  pub risk_reserve_cents : ℕ
  pub deposit_cents : ℕ
  pub extras_cents : ℕ
  pub discount_cents : ℕ

insert_tier : VolumeTier → List VolumeTier → List VolumeTier
insert_tier t [] = t ∷ []
insert_tier t (u ∷ us) =
    if leb u.completed_trips t.completed_trips then t ∷ u ∷ us else u ∷ insert_tier t us

-- The tiers with the most trips first.
sort_tiers : List VolumeTier → List VolumeTier
unfolding insert_tier
sort_tiers [] = []
sort_tiers (t ∷ ts) = insert_tier t (sort_tiers ts)

subscription_reduction : Option Subscription → ℕ
subscription_reduction none = 0
subscription_reduction (some s) = s.commission_reduction_bps

tier_reduction : Option VolumeTier → ℕ
tier_reduction none = 0
tier_reduction (some t) = t.commission_reduction_bps

-- `Math.max(0, Math.min(10000, …))`.
unfoldable pub commission_rate : MarketplacePricingConfig → Facts → ℕ
unfolding sort_tiers subscription_reduction tier_reduction
commission_rate c facts =
    let subscription : Option Subscription =
      find (λ s. some s.plan == facts.subscription_plan) c.subscriptions in
    let tier : Option VolumeTier =
      find (λ t. leb t.completed_trips facts.completed_trips) (sort_tiers c.volume_tiers) in
    min 10000 (
      pos_part (
        pos c.host_commission.basis_points
        +ℤ c.jurisdiction_host_commission_bps
        -ℤ pos (subscription_reduction subscription)
        -ℤ pos (tier_reduction tier)))

-- An amount that one party bears.
abbrev pub borne_by_host : Allocation → ℕ → ℕ
borne_by_host host n = n
borne_by_host _ n = 0

abbrev pub borne_by_guest : Allocation → ℕ → ℕ
borne_by_guest guest n = n
borne_by_guest _ n = 0

abbrev pub borne_by_platform : Allocation → ℕ → ℕ
borne_by_platform platform n = n
borne_by_platform _ n = 0

abbrev pub when : Bool → ℕ → ℕ
when b n = if b then n else 0

-- The amounts, before the two tests on them: `host_is_covered` is the test that `host_net_cents` is
-- not negative.
unfoldable pub price_amounts : BasePrice → MarketplacePricingConfig → Facts → Amounts
price_amounts base c facts =
    let gross : ℕ = base.subtotal_cents + base.extras_cents in
    let host_discount : ℕ = rounded base.discount_cents c.host_share_bps in
    let host_base : ℕ = gross - host_discount in
    let commission : ℕ =
      amount_for host_base (record c.host_commission { basis_points = commission_rate c facts }) in
    let guest_base : ℕ = gross - base.discount_cents in
    let guest_service : ℕ = amount_for guest_base (record c.guest_service {
      flat_cents = c.guest_service.flat_cents + c.jurisdiction_guest_service_flat_cents;
    }) in
    let protection : ℕ = amount_for guest_base c.protection in
    let processing : ℕ = amount_for guest_base c.processing in
    let guest_processing : ℕ = borne_by_guest c.processing_allocation processing in
    let host_processing : ℕ = borne_by_host c.processing_allocation processing in
    let reserve : ℕ = amount_for host_base c.risk_reserve in
    let rental_tax : ℕ =
      rounded (base.subtotal_cents + when c.extras_taxable base.extras_cents - base.discount_cents)
        c.tax_basis_points in
    let fee_tax : ℕ =
      rounded
        (when c.guest_service_taxable guest_service
          + when c.protection_taxable protection
          + when c.processing_taxable guest_processing)
        c.tax_basis_points in
    let fees : ℕ = guest_service + guest_processing + protection in
    record {
      gross_cents = gross;
      host_discount_cents = host_discount;
      platform_discount_cents = base.discount_cents - host_discount;
      commission_cents = commission;
      host_net_cents = host_base - commission - host_processing - reserve;
      rental_tax_cents = rental_tax;
      fee_tax_cents = fee_tax;
      fees_cents = fees;
      total_cents = guest_base + fees + rental_tax + fee_tax;
      guest_service_cents = guest_service;
      protection_cents = protection;
      guest_processing_cents = guest_processing;
      host_processing_cents = host_processing;
      platform_processing_cents = borne_by_platform c.processing_allocation processing;
      risk_reserve_cents = reserve;
      deposit_cents = base.deposit_cents;
      extras_cents = base.extras_cents;
      discount_cents = base.discount_cents;
    }

-- Every amount of the base is a safe integer.
unfoldable pub is_valid_base : BasePrice → Bool
is_valid_base b =
    is_safe_integer b.subtotal_cents
    && is_safe_integer b.extras_cents
    && is_safe_integer b.discount_cents
    && is_safe_integer b.deposit_cents

-- `hostNet < 0` fails: what the host bears is within the host's base.
unfoldable pub host_is_covered : Amounts → Bool
host_is_covered a =
    leb (a.commission_cents + a.host_processing_cents + a.risk_reserve_cents)
      (a.gross_cents - a.host_discount_cents)

unfoldable pub calculate_marketplace_price :
    BasePrice → MarketplacePricingConfig → Facts → Result PricingError Amounts
calculate_marketplace_price base c facts = do
  guard (is_valid_config c) invalid_config
  guard (is_safe_integer facts.completed_trips) invalid_facts
  guard (is_valid_base base) invalid_amount
  guard (leb base.discount_cents (base.subtotal_cents + base.extras_cents)) discount_exceeds_rental
  let a = price_amounts base c facts
  guard (host_is_covered a) policy_exceeds_host_earnings
  guard (leb a.total_cents 2000000000) limit_exceeded
  ok a
