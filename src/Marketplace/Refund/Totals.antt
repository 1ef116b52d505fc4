-- ===== src/Marketplace/Refund/Totals.antt =====
-- What `marketplaceRefundAllocation` of src/lib/marketplace-refund-allocation.ts guarantees.
use rent_a_4_wheel.Prelude.{
  ℕ, ◌+◌, ◌*◌, ◌/◌, ◌≤◌, min, ◌≡◌, sym, ◌∙◌, ◌&&◌, List, [], ◌∷◌, All, map, leb, arith, ok, guard,
  >>=-eq-ok, guard-eq-ok,
}
use rent_a_4_wheel.Marketplace.Config.{rounded}
use rent_a_4_wheel.Marketplace.Price.{Amounts, is_safe_integer}
use rent_a_4_wheel.Marketplace.Refund.{
  Share, RefundAllocation, of_shares, weights, liabilities, take_each, apportion, cents_of,
  weight_of, marketplace_refund_allocation,
}
use rent_a_4_wheel.Marketplace.Refund.Shares.{total, given, given-apportion, total-take_each}
use rent_a_4_wheel.Marketplace.Refund.Caps.{
  IsCapped, apportion-IsCapped, weights-apportion, quota-le,
}

-- The parts that the refund is taken from.
abbrev pub recovered : RefundAllocation → ℕ
recovered r = r.tax + r.protection + r.reserve + r.host + r.platform_fees + r.platform_cost

-- The six parts are within these bounds.
pub record Within (r : RefundAllocation) (t p s h f c : ℕ) : Type 0 where
  pub tax_fits : r.tax ≤ t
  pub protection_fits : r.protection ≤ p
  pub reserve_fits : r.reserve ≤ s
  pub host_fits : r.host ≤ h
  pub platform_fits : r.platform_fees ≤ f
  pub cost_fits : r.platform_cost ≤ c

-- Six capped shares with the weights that `take_each` leaves.
capped_six :
    (ss : List Share) (d g t p s h f : ℕ)
    → map weight_of ss ≡ take_each g (t ∷ p ∷ s ∷ h ∷ f ∷ [])
    → All IsCapped ss
    → (recovered (of_shares ss d) ≡ given ss) × Within (of_shares ss d) t p s h f g
unfolding cents_of weight_of take_each
capped_six [] d g t p s h f e a = ground arith
capped_six (s1 ∷ []) d g t p s h f e a = ground arith
capped_six (s1 ∷ s2 ∷ []) d g t p s h f e a = ground arith
capped_six (s1 ∷ s2 ∷ s3 ∷ []) d g t p s h f e a = ground arith
capped_six (s1 ∷ s2 ∷ s3 ∷ s4 ∷ []) d g t p s h f e a = ground arith
capped_six (s1 ∷ s2 ∷ s3 ∷ s4 ∷ s5 ∷ []) d g t p s h f e a = ground arith
capped_six (s1 ∷ s2 ∷ s3 ∷ s4 ∷ s5 ∷ s6 ∷ []) d g t p s h f e a = (
  ground arith,
  record {
    tax_fits = ground arith;
    protection_fits = ground arith;
    reserve_fits = ground arith;
    host_fits = ground arith;
    platform_fits = ground arith;
    cost_fits = ground arith;
  },
)
capped_six (s1 ∷ s2 ∷ s3 ∷ s4 ∷ s5 ∷ s6 ∷ s7 ∷ ss) d g t p s h f e a = ground arith

module _ (a : Amounts) (cash paid bps entitlement : ℕ) where
  abbrev pub discount : ℕ
  discount = cash * a.platform_discount_cents / paid

  abbrev pub gross : ℕ
  gross = paid + a.platform_discount_cents

  abbrev pub shares : List Share
  shares = apportion (cash + discount) gross (weights a paid bps entitlement)

  pub success :
      (r : RefundAllocation)
      → marketplace_refund_allocation a cash paid bps entitlement ≡ ok r
      → (1 ≤ paid) × (cash ≤ paid) × (of_shares shares discount ≡ r)
  unfolding marketplace_refund_allocation
  success r h =
      let (_, g1, h1) =
        >>=-eq-ok
          (guard (is_safe_integer cash && is_safe_integer paid && leb 1 paid && leb cash paid) _) _
          h in
      let g = guard-eq-ok _ _ g1 in (ground arith, ground arith, cc)

  pub total-weights : total (weights a paid bps entitlement) ≡ gross
  unfolding weights
  total-weights = total-take_each gross (liabilities a bps entitlement)

  pub discount-le : 1 ≤ paid → cash ≤ paid → discount ≤ a.platform_discount_cents
  discount-le p q = quota-le cash a.platform_discount_cents paid q

  pub shares-given : 1 ≤ paid → given shares ≡ cash + discount
  shares-given p = rw (sym total-weights) (
      given-apportion (cash + discount) (weights a paid bps entitlement)
        (omega (arith, total-weights)))

  pub shares-IsCapped : 1 ≤ paid → cash ≤ paid → All IsCapped shares
  shares-IsCapped p q = rw (sym total-weights) (
      apportion-IsCapped (cash + discount) (weights a paid bps entitlement)
        (omega (arith, total-weights)) (omega (arith, total-weights, discount-le p q)))

  shares-six :
      1 ≤ paid
      → cash ≤ paid
      → (recovered (of_shares shares discount) ≡ given shares)
        × Within
            (of_shares shares discount)
            (a.rental_tax_cents + a.fee_tax_cents)
            a.protection_cents
            a.risk_reserve_cents
            (min entitlement (rounded a.host_net_cents bps))
            (a.commission_cents + a.guest_service_cents)
            gross
  unfolding weights liabilities
  shares-six p q =
      capped_six shares discount gross _ _ _ _ _
        (weights-apportion (cash + discount) gross (weights a paid bps entitlement))
        (shares-IsCapped p q)

  -- An accepted refund is handed out to the cent: its six parts add up to the cash and the discount
  -- that comes back with it, and no part is more than the amount that it is taken from, the host's
  -- part being at most the entitlement and the refundable share of the frozen net.
  pub refund-Within :
      (r : RefundAllocation)
      → marketplace_refund_allocation a cash paid bps entitlement ≡ ok r
      → (recovered r ≡ cash + r.discount)
        × (r.discount ≤ a.platform_discount_cents)
        × Within r
            (a.rental_tax_cents + a.fee_tax_cents)
            a.protection_cents
            a.risk_reserve_cents
            (min entitlement (rounded a.host_net_cents bps))
            (a.commission_cents + a.guest_service_cents)
            (paid + a.platform_discount_cents)
  refund-Within r h =
      let (p, q, e) = success r h in
      let (s, w) = shares-six p q in rw (sym e) (s ∙ shares-given p, discount-le p q, w)
