-- ===== src/Pricing/Quote.antt =====
-- `calculatePricing` of src/lib/pricing.ts.
use rent_a_4_wheel.Prelude.{
  ℕ, ◌+◌, ◌-◌, ◌*◌, ◌/◌, ◌≤◌, min, ◌≡◌, refl, Option, none, some, List, map, sum_by, from_option,
  arith,
}
use rent_a_4_wheel.Pricing.Rate.{VehicleRates, RateSelection, RateType, Calendar, select_rate}

pub data ChargeType : Type 0 where
  one_time daily percentage : ChargeType

pub record ExtraSelection : Type 0 where
  pub id : ℕ
  pub charge_type : ChargeType
  pub amount_cents : Option ℕ
  pub percent : Option ℕ
  pub quantity : ℕ

pub data DiscountType : Type 0 where
  percentage fixed : DiscountType

pub record CouponTerms : Type 0 where
  pub discount_type : DiscountType
  pub amount_cents : Option ℕ
  pub percent : Option ℕ

pub record LineItem : Type 0 where
  pub extra_id : ℕ
  pub amount_cents : ℕ
  pub quantity : ℕ

-- `Math.round((amount * percent) / 100)`.
unfoldable pub round_percent : ℕ → ℕ → ℕ
round_percent amount percent = (amount * percent + 5000) / 10000

extra_amount : RateSelection → ChargeType → ExtraSelection → ℕ
unfolding round_percent
extra_amount rate ChargeType.one_time e = from_option e.amount_cents 0 * e.quantity
extra_amount rate ChargeType.daily e = from_option e.amount_cents 0 * rate.days * e.quantity
extra_amount rate ChargeType.percentage e =
    round_percent rate.subtotal_cents (from_option e.percent 0) * e.quantity

line_item : RateSelection → ExtraSelection → LineItem
unfolding extra_amount
line_item rate e = record {
  extra_id = e.id;
  amount_cents = extra_amount rate e.charge_type e;
  quantity = e.quantity;
}

line_amount : LineItem → ℕ
line_amount l = l.amount_cents

discount_by : DiscountType → CouponTerms → ℕ → ℕ
unfolding round_percent
discount_by DiscountType.percentage c base = round_percent base (from_option c.percent 0)
discount_by DiscountType.fixed c base = min (from_option c.amount_cents 0) base

discount : Option CouponTerms → ℕ → ℕ
unfolding discount_by
discount none base = 0
discount (some c) base = discount_by c.discount_type c base

pub record PricingBreakdown : Type 0 where
  pub rate_type : RateType
  pub rate_amount_cents : ℕ
  pub units : ℕ
  pub days : ℕ
  pub subtotal_cents : ℕ
  pub extras_cents : ℕ
  pub extra_line_items : List LineItem
  pub discount_cents : ℕ
  pub tax_cents : ℕ
  pub fees_cents : ℕ
  pub total_cents : ℕ
  pub deposit_cents : ℕ

pub record PricingParams : Type 0 where
  pub vehicle : VehicleRates
  pub pickup_at : ℕ
  pub return_at : ℕ
  pub booking_timezone : ℕ
  pub extras : List ExtraSelection
  pub coupon : Option CouponTerms
  pub tax_rate_percent : ℕ
  pub fees_cents : ℕ

-- What is taxed: `Math.max(0, …)` is the truncated subtraction.
taxable : RateSelection → ℕ → ℕ → ℕ
taxable rate extras discounted = rate.subtotal_cents + extras - discounted

-- The breakdown, once the rate and the lines are known.
breakdown_for : PricingParams → RateSelection → List LineItem → PricingBreakdown
unfolding line_amount discount taxable round_percent
breakdown_for p rate lines =
    let extras_cents : ℕ = sum_by line_amount lines in
    let discount_cents : ℕ = discount p.coupon (rate.subtotal_cents + extras_cents) in
    let taxable_amount : ℕ = taxable rate extras_cents discount_cents in
    let tax_cents : ℕ = round_percent taxable_amount p.tax_rate_percent in
    record {
      rate_type = rate.rate_type;
      rate_amount_cents = rate.rate_amount_cents;
      units = rate.units;
      days = rate.days;
      subtotal_cents = rate.subtotal_cents;
      extras_cents = extras_cents;
      extra_line_items = lines;
      discount_cents = discount_cents;
      tax_cents = tax_cents;
      fees_cents = p.fees_cents;
      total_cents = taxable_amount + tax_cents + p.fees_cents;
      deposit_cents = p.vehicle.security_deposit_cents;
    }

unfoldable pub calculate_pricing : Calendar → PricingParams → PricingBreakdown
unfolding breakdown_for line_item
calculate_pricing cal p =
    let rate = select_rate cal p.vehicle p.pickup_at p.return_at p.booking_timezone in
    breakdown_for p rate (map (line_item rate) p.extras)

-- A discount of at most the whole: a percentage up to 100.
abbrev pub IsModest : Option CouponTerms → Type 0
IsModest none = Unit {0}
IsModest (some c) = from_option c.percent 0 ≤ 10000

round_percent-le : (a p : ℕ) → p ≤ 10000 → round_percent a p ≤ a
unfolding round_percent
round_percent-le a p h = grind arith

discount-le : (c : Option CouponTerms) (base : ℕ) → IsModest c → discount c base ≤ base
unfolding discount
discount-le none base h = omega arith
discount-le (some c) base h = ground (arith, round_percent-le base (from_option c.percent 0))

abbrev pub BillBalances : PricingParams → PricingBreakdown → Type 0
BillBalances p b =
    (b.total_cents + b.discount_cents
      ≡ b.subtotal_cents + b.extras_cents + b.tax_cents + b.fees_cents)
    × (b.discount_cents ≤ b.subtotal_cents + b.extras_cents)
    × (b.tax_cents
        ≡ round_percent (b.subtotal_cents + b.extras_cents - b.discount_cents) p.tax_rate_percent)

breakdown-balances :
    (p : PricingParams) (rate : RateSelection) (lines : List LineItem)
    → IsModest p.coupon
    → BillBalances p (breakdown_for p rate lines)
unfolding breakdown_for
breakdown-balances p rate lines h =
    let le = discount-le p.coupon (rate.subtotal_cents + sum_by line_amount lines) h in
    (omega (arith, le), le, refl)

-- The bill adds up: with a coupon of at most 100 %, what is charged and what is discounted are the
-- rental, the extras, the tax and the fees; the discount never exceeds rental and extras, and the
-- tax is the rate on what is left.
calculate_pricing-balances :
    (cal : Calendar) (p : PricingParams)
    → IsModest p.coupon
    → BillBalances p (calculate_pricing cal p)
unfolding calculate_pricing
calculate_pricing-balances cal p h =
    let rate = select_rate cal p.vehicle p.pickup_at p.return_at p.booking_timezone in
    breakdown-balances p rate (map (line_item rate) p.extras) h
