-- ===== src/Marketplace/Conservation.antt =====
-- Where the money of a marketplace price goes.
use rent_a_4_wheel.Prelude.{
  ℕ, ◌+◌, ◌-◌, ◌≤◌, ◌≡◌, true, leb, ok, guard, arith, >>=-eq-ok, guard-eq-ok,
}
use rent_a_4_wheel.Marketplace.Config.{
  is_fee, Allocation, host, guest, platform, MarketplacePricingConfig, is_valid_config, rounded-le,
  amount_for, amount_for-le,
}
use rent_a_4_wheel.Marketplace.Price.{
  BasePrice, Facts, Amounts, is_valid_base, host_is_covered, price_amounts,
  calculate_marketplace_price, is_safe_integer, borne_by_host, borne_by_guest, borne_by_platform,
}

-- What the accepted inputs guarantee.
pub record Accepted (base : BasePrice) (c : MarketplacePricingConfig) (a : Amounts) : Type 0 where
  pub discount_fits : base.discount_cents ≤ base.subtotal_cents + base.extras_cents
  pub share_fits : c.host_share_bps ≤ 10000
  pub covered :
      a.commission_cents + a.host_processing_cents + a.risk_reserve_cents
      ≤ a.gross_cents - a.host_discount_cents
  pub limited : a.total_cents ≤ 2000000000
  pub processing_fits : c.processing.maximum_cents ≤ 100000000

share_lem : (c : MarketplacePricingConfig) → is_valid_config c ≡ true → c.host_share_bps ≤ 10000
unfolding is_valid_config
share_lem c h = ground arith

processing_lem :
    (c : MarketplacePricingConfig)
    → is_valid_config c ≡ true
    → c.processing.maximum_cents ≤ 100000000
unfolding is_valid_config is_fee
processing_lem c h = ground arith

accepted :
    (base : BasePrice) (c : MarketplacePricingConfig) (q a : Amounts)
    → a ≡ q
    → is_valid_config c ≡ true
    → leb base.discount_cents (base.subtotal_cents + base.extras_cents) ≡ true
    → host_is_covered q ≡ true
    → leb q.total_cents 2000000000 ≡ true
    → Accepted base c a
unfolding host_is_covered
accepted base c q a e v d k l = record {
  discount_fits = ground arith;
  share_fits = share_lem c v;
  covered = ground arith;
  limited = ground arith;
  processing_fits = processing_lem c v;
}

gates_lem :
    (base : BasePrice) (c : MarketplacePricingConfig) (facts : Facts) (a : Amounts)
    → calculate_marketplace_price base c facts ≡ ok a
    → (a ≡ price_amounts base c facts) × Accepted base c a
unfolding calculate_marketplace_price
gates_lem base c facts a h =
    let (_, g1, h1) = >>=-eq-ok (guard (is_valid_config c) _) _ h in
    let (_, _, h2) = >>=-eq-ok (guard (is_safe_integer facts.completed_trips) _) _ h1 in
    let (_, g3, h3) = >>=-eq-ok (guard (is_valid_base base) _) _ h2 in
    let (_, g4, h4) =
      >>=-eq-ok (guard (leb base.discount_cents (base.subtotal_cents + base.extras_cents)) _) _
        h3 in
    let q = price_amounts base c facts in
    let (_, g5, h5) = >>=-eq-ok (guard (host_is_covered q) _) _ h4 in
    let (_, g6, h6) = >>=-eq-ok (guard (leb q.total_cents 2000000000) _) _ h5 in
    (
      ground (arith, h6),
      accepted base c q a (ground (arith, h6)) (guard-eq-ok _ _ g1) (guard-eq-ok _ _ g4)
          (guard-eq-ok _ _ g5) (guard-eq-ok _ _ g6),
    )

-- The processing fee has one bearer.
borne_lem :
    (o : Allocation) (n : ℕ) → borne_by_host o n + borne_by_guest o n + borne_by_platform o n ≡ n
borne_lem host n = omega arith
borne_lem guest n = omega arith
borne_lem platform n = omega arith

abbrev pub Conserves : Amounts → Type 0
Conserves a =
    (a.host_net_cents + a.commission_cents + a.host_processing_cents + a.risk_reserve_cents
        + a.host_discount_cents
      ≡ a.gross_cents)
    × (a.host_discount_cents + a.platform_discount_cents ≡ a.discount_cents)
    × (a.total_cents + a.discount_cents
        ≡ a.gross_cents + a.fees_cents + a.rental_tax_cents + a.fee_tax_cents)
    × (a.fees_cents ≡ a.guest_service_cents + a.guest_processing_cents + a.protection_cents)
    × (a.discount_cents ≤ a.gross_cents)
    × (a.total_cents ≤ 2000000000)
    × (a.platform_processing_cents ≤ 100000000)

conserved :
    (base : BasePrice) (c : MarketplacePricingConfig) (facts : Facts)
    → Accepted base c (price_amounts base c facts)
    → Conserves (price_amounts base c facts)
unfolding price_amounts
conserved base c facts k = omega (
  arith,
  rounded-le base.discount_cents c.host_share_bps k.share_fits,
  k.discount_fits,
  k.processing_fits,
  amount_for-le (base.subtotal_cents + base.extras_cents - base.discount_cents) c.processing,
  borne_lem c.processing_allocation
      (amount_for (base.subtotal_cents + base.extras_cents - base.discount_cents) c.processing),
)

-- A marketplace price that is accepted hands out every cent: the host side (commission, host
-- processing, reserve, net) is the gross less the host's part of the discount; the two parts of the
-- discount are the discount; the guest's total is the gross less the discount, plus fees and tax; the
-- fees are the guest's service, processing and protection; the discount is within the gross, the total is at most 2,000,000,000 and the
-- platform's processing fee at most 100,000,000.
pub price-Conserves :
    (base : BasePrice) (c : MarketplacePricingConfig) (facts : Facts) (a : Amounts)
    → calculate_marketplace_price base c facts ≡ ok a
    → Conserves a
price-Conserves base c facts a h =
    let (e, k) = gates_lem base c facts a h in rw e (conserved base c facts (rw e at k))
