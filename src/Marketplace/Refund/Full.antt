-- ===== src/Marketplace/Refund/Full.antt =====
-- A full refund of a marketplace price: src/lib/marketplace-refund-allocation.ts on the amounts that
-- src/lib/marketplace-pricing.ts calculates.
use native.Mathlib.Nat.{mul-div_cancel_left}
use rent_a_4_wheel.Prelude.{
  ℕ, ◌+◌, ◌-◌, ◌≤◌, min, ◌≡◌, refl, subst, List, [], ◌∷◌, All, map, arith, ok,
}
use rent_a_4_wheel.Marketplace.Config.{MarketplacePricingConfig, rounded, rounded-le}
use rent_a_4_wheel.Marketplace.Price.{BasePrice, Facts, Amounts, calculate_marketplace_price}
use rent_a_4_wheel.Marketplace.Conservation.{Conserves, price-Conserves}
use rent_a_4_wheel.Marketplace.Refund.{
  Share, RefundAllocation, of_shares, weights, liabilities, take_each, weight_of,
  marketplace_refund_allocation,
}
use rent_a_4_wheel.Marketplace.Refund.Shares.{total}
use rent_a_4_wheel.Marketplace.Refund.Caps.{weights-apportion, weighed, capped_full}
use rent_a_4_wheel.Marketplace.Refund.Totals.{
  discount, gross, shares, success, shares-given, shares-IsCapped, total-weights,
}

-- The parts are these.
pub record Recovers (r : RefundAllocation) (t p s h f c : ℕ) : Type 0 where
  pub tax_is : r.tax ≡ t
  pub protection_is : r.protection ≡ p
  pub reserve_is : r.reserve ≡ s
  pub host_is : r.host ≡ h
  pub platform_is : r.platform_fees ≡ f
  pub cost_is : r.platform_cost ≡ c

full_six :
    (ss : List Share) (d g t p s h f : ℕ)
    → map weight_of ss ≡ take_each g (t ∷ p ∷ s ∷ h ∷ f ∷ [])
    → t + p + s + h + f ≤ g
    → All (λ x. x.cents ≡ x.weight) ss
    → Recovers (of_shares ss d) t p s h f (g - (t + p + s + h + f))
unfolding weight_of take_each
full_six [] d g t p s h f e k a = ground arith
full_six (s1 ∷ []) d g t p s h f e k a = ground arith
full_six (s1 ∷ s2 ∷ []) d g t p s h f e k a = ground arith
full_six (s1 ∷ s2 ∷ s3 ∷ []) d g t p s h f e k a = ground arith
full_six (s1 ∷ s2 ∷ s3 ∷ s4 ∷ []) d g t p s h f e k a = ground arith
full_six (s1 ∷ s2 ∷ s3 ∷ s4 ∷ s5 ∷ []) d g t p s h f e k a = ground arith
full_six (s1 ∷ s2 ∷ s3 ∷ s4 ∷ s5 ∷ s6 ∷ []) d g t p s h f e k a = record {
  tax_is = ground arith;
  protection_is = ground arith;
  reserve_is = ground arith;
  host_is = ground arith;
  platform_is = ground arith;
  cost_is = ground arith;
}
full_six (s1 ∷ s2 ∷ s3 ∷ s4 ∷ s5 ∷ s6 ∷ s7 ∷ ss) d g t p s h f e k a = ground arith

heads : (a b : ℕ) (as' bs : List ℕ) → a ∷ as' ≡ b ∷ bs → a ≡ b
heads a b as' bs e = cc

weighed-total : (ss : List Share) (ws : List ℕ) → map weight_of ss ≡ ws → weighed ss ≡ total ws
unfolding weight_of
weighed-total [] [] e = refl
weighed-total [] (w ∷ ws) e = ground arith
weighed-total (s ∷ ss) [] e = ground arith
weighed-total (s ∷ ss) (w ∷ ws) e =
    omega (arith, weighed-total ss ws (ground arith), heads s.weight w _ _ e)

-- The whole of every liability, and for the platform the rest.
abbrev pub ReturnsAll : Amounts → (bps entitlement : ℕ) → RefundAllocation → Type 0
ReturnsAll a bps entitlement r =
    Recovers r (a.rental_tax_cents + a.fee_tax_cents) a.protection_cents a.risk_reserve_cents
      (min entitlement (rounded a.host_net_cents bps)) (a.commission_cents + a.guest_service_cents)
      (a.total_cents
        + a.platform_discount_cents
        - (a.rental_tax_cents
            + a.fee_tax_cents
            + a.protection_cents
            + a.risk_reserve_cents
            + min entitlement (rounded a.host_net_cents bps)
            + (a.commission_cents + a.guest_service_cents)))

module _ (a : Amounts) (bps entitlement : ℕ) where
  full_shares :
      (paid : ℕ) → 1 ≤ paid → All (λ s. s.cents ≡ s.weight) (shares a paid paid bps entitlement)
  full_shares paid p =
      capped_full (shares a paid paid bps entitlement)
        (shares-IsCapped a paid paid bps entitlement p (omega arith))
        (omega (
          arith,
          weighed-total (shares a paid paid bps entitlement) (weights a paid bps entitlement)
              (weights-apportion _ _ (weights a paid bps entitlement)),
          total-weights a paid paid bps entitlement,
          shares-given a paid paid bps entitlement p,
          mul-div_cancel_left a.platform_discount_cents p,
        ))

  -- The liabilities of an accepted price are within what the guest and the platform paid.
  liabilities-le :
      Conserves a
      → bps ≤ 10000
      → a.rental_tax_cents
          + a.fee_tax_cents
          + a.protection_cents
          + a.risk_reserve_cents
          + min entitlement (rounded a.host_net_cents bps)
          + (a.commission_cents + a.guest_service_cents)
        ≤ a.total_cents + a.platform_discount_cents
  liabilities-le k b = omega (arith, rounded-le a.host_net_cents bps b)

  full_parts :
      Conserves a
      → bps ≤ 10000
      → 1 ≤ a.total_cents
      → ReturnsAll a bps entitlement (
          of_shares
            (shares a a.total_cents a.total_cents bps entitlement)
            (discount a a.total_cents a.total_cents bps entitlement))
  unfolding weights liabilities
  full_parts k b p =
      full_six (shares a a.total_cents a.total_cents bps entitlement) _
        (gross a a.total_cents a.total_cents bps entitlement) _ _ _ _ _
        (weights-apportion _ _ (weights a a.total_cents bps entitlement)) (liabilities-le k b)
        (full_shares a.total_cents p)

-- The refund of a whole accepted price returns every liability: the tax, the protection, the reserve
-- and the platform's fees to the cent, from the host the refundable share of the net as far as the
-- entitlement goes, and the platform bears exactly what is left.
pub full_refund_returns :
    (base : BasePrice) (c : MarketplacePricingConfig) (facts : Facts) (a : Amounts)
    (bps entitlement : ℕ) (r : RefundAllocation)
    → calculate_marketplace_price base c facts ≡ ok a
    → bps ≤ 10000
    → marketplace_refund_allocation a a.total_cents a.total_cents bps entitlement ≡ ok r
    → ReturnsAll a bps entitlement r
full_refund_returns base c facts a bps entitlement r q b h =
    let (p, _, e) = success a a.total_cents a.total_cents bps entitlement r h in
    subst (ReturnsAll a bps entitlement) e
      (full_parts a bps entitlement (price-Conserves base c facts a q) b p)
