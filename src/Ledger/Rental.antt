-- ===== src/Ledger/Rental.antt =====
-- The postings that `accountReservation` of src/lib/finance-ledger.ts makes for a payment, a refund and
-- a deposit.
pub mod Acceptance
pub mod Price
pub mod Refunds
use rent_a_4_wheel.Prelude.{
  ℕ, ◌+◌, Bool, true, false, Option, none, some, List, [], ◌∷◌, if◌then◌else◌, is_some,
}
use rent_a_4_wheel.Prelude.Int.{ℤ, pos}
use rent_a_4_wheel.Marketplace.Price.{Amounts}
use rent_a_4_wheel.Marketplace.Refund.{RefundAllocation}
use rent_a_4_wheel.Ledger.{
  Account, stripe_clearing, platform_discounts, payment_processing_expense, host_payable,
  platform_rental_revenue, commission_revenue, unsettled_platform_fees, tax_payable,
  protection_payable, processing_payable, host_risk_reserve_payable, service_fee_revenue,
  deposit_settlement_liability, additional_charge_liability, host_receivable, platform_refund_cost,
  memo_deposit_control, memo_deposit_authorized, LedgerPosting,
}

abbrev pub debit : Account → ℕ → LedgerPosting
debit a n = record { account = a; debit_cents = some (pos n); credit_cents = none }

abbrev pub credit : Account → ℕ → LedgerPosting
credit a n = record { account = a; debit_cents = none; credit_cents = some (pos n) }

-- The lines of a rental payment under MARKETPLACE_V1.
unfoldable pub marketplace_lines : (amount_cents : ℕ) → Amounts → List LedgerPosting
marketplace_lines amount a =
    debit stripe_clearing amount
    ∷ debit platform_discounts a.platform_discount_cents
    ∷ debit payment_processing_expense a.platform_processing_cents
    ∷ credit host_payable a.host_net_cents
    ∷ credit unsettled_platform_fees (a.commission_cents + a.guest_service_cents)
    ∷ credit tax_payable (a.rental_tax_cents + a.fee_tax_cents)
    ∷ credit protection_payable a.protection_cents
    ∷ credit processing_payable
        (a.guest_processing_cents + a.host_processing_cents + a.platform_processing_cents)
    ∷ credit host_risk_reserve_payable a.risk_reserve_cents
    ∷ []

-- The lines of a rental payment under the finance rules.
unfoldable pub standard_lines :
    (amount_cents : ℕ) → (host_id : Option ℕ) → Amounts → List LedgerPosting
standard_lines amount host_id a =
    debit stripe_clearing amount
    ∷ debit platform_discounts a.platform_discount_cents
    ∷ credit (if is_some host_id then host_payable else platform_rental_revenue) a.host_net_cents
    ∷ credit commission_revenue a.commission_cents
    ∷ credit tax_payable (a.rental_tax_cents + a.fee_tax_cents)
    ∷ credit service_fee_revenue a.fees_cents
    ∷ []

-- The lines of an additional charge or a captured deposit.
unfoldable pub collection_lines : (is_capture : Bool) → (amount_cents : ℕ) → List LedgerPosting
collection_lines is_capture amount =
    debit stripe_clearing amount
    ∷ credit (if is_capture then deposit_settlement_liability else additional_charge_liability)
        amount
    ∷ []

-- The lines of a marketplace refund; `sent` where the host's transfer may have moved.
unfoldable pub refund_lines :
    (sent : Bool) → RefundAllocation → (amount_cents : ℕ) → List LedgerPosting
refund_lines sent d amount =
    debit tax_payable d.tax
    ∷ debit protection_payable d.protection
    ∷ debit host_risk_reserve_payable d.reserve
    ∷ debit (if sent then host_receivable else host_payable) d.host
    ∷ debit unsettled_platform_fees d.platform_fees
    ∷ debit platform_refund_cost d.platform_cost
    ∷ credit platform_discounts d.discount
    ∷ credit stripe_clearing amount
    ∷ []

-- The memo lines of a deposit authorization.
unfoldable pub deposit_lines : ℕ → List LedgerPosting
deposit_lines amount =
    debit memo_deposit_control amount ∷ credit memo_deposit_authorized amount ∷ []
