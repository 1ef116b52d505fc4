-- ===== src/Scenarios/Money.antt =====
-- Refunds, prices and quotes at concrete amounts.
use rent_a_4_wheel.Prelude.{
  ℕ, ◌+◌, ◌*◌, ◌-◌, ◌≤◌, ◌<◌, ◌≡◌, refl, Bool, true, false, not, ◌&&◌, Option, none, some, List, [],
  ◌∷◌, min, ok, inl, inr, ◌⊎◌, ◌↔◌, nat_eq, Eq, includes, arith,
}
use rent_a_4_wheel.Prelude.Int.{ℤ, pos}
use rent_a_4_wheel.Schema.Enums.{ReservationStatus, OperationKind, OperationState, RefundStatus}
use rent_a_4_wheel.Schema.Money.{Refund, Key, Payload, FinancialOperation}
use rent_a_4_wheel.Schema.Database.{Db, Env, OperationParams}
use rent_a_4_wheel.Finance.Operations.{prepare_operation}
use rent_a_4_wheel.Finance.Refunds.{RefundRequest, reserve_refund, find_payment, held_cents}
use rent_a_4_wheel.Finance.Refunds.Reserve.{IsCovered, refunds_never_exceed, refund_reserved_once}
use rent_a_4_wheel.Marketplace.Config.{Fee, Allocation, MarketplacePricingConfig, rounded}
use rent_a_4_wheel.Marketplace.Price.{BasePrice, Facts, Amounts, calculate_marketplace_price}
use rent_a_4_wheel.Marketplace.Conservation.{Conserves, price-Conserves}
use rent_a_4_wheel.Marketplace.Refund.{
  RefundAllocation, empty_refund_allocation, marketplace_refund_allocation,
}
use rent_a_4_wheel.Marketplace.Refund.Totals.{recovered, Within, refund-Within}
use rent_a_4_wheel.Marketplace.Refund.Full.{ReturnsAll, full_refund_returns}
use rent_a_4_wheel.Marketplace.Additional.{
  PriorAllocation, additional_marketplace_refund, Cumulative, additional-Cumulative,
}
use rent_a_4_wheel.Scenarios.World.{value, env, world}

abbrev request : RefundRequest
request = record {
  idempotency_key = Key.custom 4;
  reservation_id = 1;
  payment_id = 8;
  amount_cents = 20000;
  reason = none;
  initiated_by_id = none;
}

abbrev paid : Db
paid = world ReservationStatus.confirmed

abbrev no_refund : Refund
no_refund = record {
  id = 0;
  reservation_id = 0;
  payment_id = 0;
  amount_cents = 0;
  status = RefundStatus.failed;
  legacy_uncertain = false;
  idempotency_key = Key.custom 0;
  reason = none;
  initiated_by_id = none;
}

abbrev reservation_of : Refund × Db
reservation_of = value (reserve_refund env request paid) (no_refund, paid)

reserves : reserve_refund env request paid ≡ ok (reservation_of.0, reservation_of.1)
unfolding reserve_refund find_payment rent_a_4_wheel.Finance.Refunds.find_refund held_cents
    rent_a_4_wheel.Schema.Database.find_reservation prepare_operation
    rent_a_4_wheel.Finance.Operations.find_key
reserves = refl

paid-IsCovered : IsCovered paid
unfolding find_payment held_cents
paid-IsCovered = λ id p e. omega arith

refunds_never_exceed_example : IsCovered reservation_of.1
refunds_never_exceed_example =
    refunds_never_exceed env request paid reservation_of.0 reservation_of.1 paid-IsCovered reserves

refund_reserved_once_example :
    reserve_refund env request reservation_of.1 ≡ ok (reservation_of.0, reservation_of.1)
refund_reserved_once_example =
    refund_reserved_once env env request paid reservation_of.0 reservation_of.1 reserves

abbrev params : OperationParams
params = record {
  key = Key.custom 6;
  kind = OperationKind.refund;
  reservation_id = some 1;
  payload = Payload.legacy;
}

abbrev no_operation : FinancialOperation
no_operation = record {
  id = 0;
  key = Key.custom 0;
  kind = OperationKind.refund;
  reservation_id = none;
  payload = Payload.legacy;
  fingerprint = 0;
  provider_id = none;
  result_status = none;
  generation = none;
  state = OperationState.ready;
  priority = 0;
  lease_token = none;
  lease_expires_at = none;
  first_attempt_at = none;
  next_attempt_at = none;
  attempts = 0;
  consecutive_failures = 0;
}

abbrev preparation : FinancialOperation × Db
preparation = value (prepare_operation env params paid) (no_operation, paid)

prepares : prepare_operation env params paid ≡ ok (preparation.0, preparation.1)
unfolding prepare_operation rent_a_4_wheel.Finance.Operations.find_key
prepares = refl

abbrev fee : ℕ → ℕ → Fee
fee bps flat = record {
  basis_points = bps;
  flat_cents = flat;
  minimum_cents = 0;
  maximum_cents = 100000;
}

abbrev pub config : MarketplacePricingConfig
config = record {
  host_commission = fee 1500 0;
  guest_service = fee 800 0;
  subscriptions = [];
  volume_tiers = [];
  jurisdiction_host_commission_bps = pos 0;
  jurisdiction_guest_service_flat_cents = 0;
  protection = fee 0 2500;
  processing = fee 290 30;
  processing_allocation = Allocation.platform;
  tax_basis_points = 900;
  extras_taxable = true;
  guest_service_taxable = true;
  protection_taxable = false;
  processing_taxable = false;
  risk_reserve = fee 300 0;
  host_share_bps = 5000;
  delay_days = 3;
  refund_host_bps = 10000;
  chargeback_host_bps = 5000;
  reverse_transfers = false;
}

abbrev pub base : BasePrice
base = record {
  subtotal_cents = 40000;
  extras_cents = 3000;
  discount_cents = 5001;
  deposit_cents = 20000;
}

abbrev pub facts : Facts
facts = record { completed_trips = 4; subscription_plan = none }

abbrev no_amounts : Amounts
no_amounts = record {
  gross_cents = 0;
  host_discount_cents = 0;
  platform_discount_cents = 0;
  commission_cents = 0;
  host_net_cents = 0;
  rental_tax_cents = 0;
  fee_tax_cents = 0;
  fees_cents = 0;
  total_cents = 0;
  guest_service_cents = 0;
  protection_cents = 0;
  guest_processing_cents = 0;
  host_processing_cents = 0;
  platform_processing_cents = 0;
  risk_reserve_cents = 0;
  deposit_cents = 0;
  extras_cents = 0;
  discount_cents = 0;
}

abbrev pub price : Amounts
price = value (calculate_marketplace_price base config facts) no_amounts

pub prices : calculate_marketplace_price base config facts ≡ ok price
unfolding calculate_marketplace_price rent_a_4_wheel.Marketplace.Config.is_valid_config
    rent_a_4_wheel.Marketplace.Price.is_valid_base rent_a_4_wheel.Marketplace.Price.host_is_covered
    rent_a_4_wheel.Marketplace.Price.price_amounts rent_a_4_wheel.Marketplace.Config.amount_for
    rent_a_4_wheel.Marketplace.Price.commission_rate rent_a_4_wheel.Prelude.Int.◌-ℤ◌
    rent_a_4_wheel.Prelude.Int.◌+ℤ◌
prices = refl

price-Conserves_example : Conserves price
price-Conserves_example = price-Conserves base config facts price prices

-- A third of the total is refunded.
abbrev partial : RefundAllocation
partial =
    value (marketplace_refund_allocation price 15000 45000 10000 30000) empty_refund_allocation

partials : marketplace_refund_allocation price 15000 45000 10000 30000 ≡ ok partial
unfolding marketplace_refund_allocation
partials = refl

refund-Within_example :
    (recovered partial ≡ 15000 + partial.discount)
    × (partial.discount ≤ price.platform_discount_cents)
    × Within partial
        (price.rental_tax_cents + price.fee_tax_cents)
        price.protection_cents
        price.risk_reserve_cents
        (min 30000 (rounded price.host_net_cents 10000))
        (price.commission_cents + price.guest_service_cents)
        (45000 + price.platform_discount_cents)
refund-Within_example = refund-Within price 15000 45000 10000 30000 partial partials

abbrev whole : RefundAllocation
whole =
    value (marketplace_refund_allocation price price.total_cents price.total_cents 10000 60000)
      empty_refund_allocation

wholes :
    marketplace_refund_allocation price price.total_cents price.total_cents 10000 60000 ≡ ok whole
unfolding marketplace_refund_allocation calculate_marketplace_price
    rent_a_4_wheel.Marketplace.Config.is_valid_config rent_a_4_wheel.Marketplace.Price.is_valid_base
    rent_a_4_wheel.Marketplace.Price.host_is_covered rent_a_4_wheel.Marketplace.Price.price_amounts
    rent_a_4_wheel.Marketplace.Config.amount_for rent_a_4_wheel.Marketplace.Price.commission_rate
    rent_a_4_wheel.Prelude.Int.◌-ℤ◌ rent_a_4_wheel.Prelude.Int.◌+ℤ◌
wholes = refl

full_refund_returns_example : ReturnsAll price 10000 60000 whole
full_refund_returns_example =
    full_refund_returns base config facts price 10000 60000 whole prices (omega arith) wholes

abbrev pub nothing_posted : PriorAllocation
nothing_posted = record {
  tax = pos 0;
  protection = pos 0;
  reserve = pos 0;
  host = pos 0;
  platform_fees = pos 0;
  platform_cost = pos 0;
  discount = pos 0;
}

abbrev pub first_refund : RefundAllocation
first_refund =
    value (additional_marketplace_refund price 15000 45000 10000 nothing_posted (pos 9000))
      empty_refund_allocation

pub first_refunds :
    additional_marketplace_refund price 15000 45000 10000 nothing_posted (pos 9000)
    ≡ ok first_refund
unfolding additional_marketplace_refund marketplace_refund_allocation
    rent_a_4_wheel.Prelude.Int.◌-ℤ◌ calculate_marketplace_price
    rent_a_4_wheel.Marketplace.Config.is_valid_config rent_a_4_wheel.Marketplace.Price.is_valid_base
    rent_a_4_wheel.Marketplace.Price.host_is_covered rent_a_4_wheel.Marketplace.Price.price_amounts
    rent_a_4_wheel.Marketplace.Config.amount_for rent_a_4_wheel.Marketplace.Price.commission_rate
    rent_a_4_wheel.Prelude.Int.◌+ℤ◌
first_refunds = refl

additional-Cumulative_example : Cumulative price 15000 (pos 9000) nothing_posted first_refund
additional-Cumulative_example =
    additional-Cumulative price 15000 45000 10000 nothing_posted (pos 9000) first_refund
      first_refunds
