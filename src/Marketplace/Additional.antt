-- ===== src/Marketplace/Additional.antt =====
-- `additionalMarketplaceRefund` of src/lib/marketplace-refund-allocation.ts: what one more refund adds to
-- what is posted.
use rent_a_4_wheel.Prelude.{
  ℕ, ◌+◌, ◌≤◌, min, ◌≡◌, ap, subst, Bool, true, not, leb, List, [], ◌∷◌, any, All, ◌||◌, Result, ok,
  guard, ◌>>=◌, ◌>>◌, >>=-eq-ok, guard-eq-ok, arith,
}
use rent_a_4_wheel.Prelude.Int.{
  ℤ, pos, pos_part, neg_part, ◌+ℤ◌, ◌-ℤ◌, ◌≤ℤ◌, eq_of_parts, +ℤ_parts, -ℤ_parts,
}
use rent_a_4_wheel.Marketplace.Price.{Amounts, is_safe_integer}
use rent_a_4_wheel.Marketplace.Refund.{
  RefundAllocation, AllocationError, requires_review, marketplace_refund_allocation,
}
use rent_a_4_wheel.Marketplace.Refund.Totals.{recovered, refund-Within}

-- The posted amounts, read back from the journals: sums of debits less credits.
pub record PriorAllocation : Type 0 where
  pub tax : ℤ
  pub protection : ℤ
  pub reserve : ℤ
  pub host : ℤ
  pub platform_fees : ℤ
  pub platform_cost : ℤ
  pub discount : ℤ

-- `!Number.isSafeInteger(n) || n < 0`.
abbrev pub is_unsafe : ℤ → Bool
is_unsafe n = not (leb (neg_part n) 0) || not (is_safe_integer (pos_part n))

abbrev pub prior_recovered : PriorAllocation → ℤ
prior_recovered p =
    p.tax +ℤ p.protection +ℤ p.reserve +ℤ p.host +ℤ p.platform_fees +ℤ p.platform_cost

-- The additional host share: what is available, what the target adds and what the budget leaves.
unfoldable pub host_delta : (available target recoverable : ℤ) → ℕ
host_delta available target recoverable =
    min (pos_part available) (min (pos_part target) (pos_part recoverable))

-- `recoverableBudget`.
unfoldable pub recoverable_budget : RefundAllocation → PriorAllocation → ℕ → ℤ
recoverable_budget target prior cash =
    pos (cash + target.discount)
    -ℤ prior_recovered prior
    -ℤ (pos target.tax -ℤ prior.tax)
    -ℤ (pos target.protection -ℤ prior.protection)
    -ℤ (pos target.reserve -ℤ prior.reserve)
    -ℤ (pos target.platform_fees -ℤ prior.platform_fees)

-- The deltas, in the order of the keys.
unfoldable pub deltas : RefundAllocation → PriorAllocation → ℕ → ℤ → List ℤ
unfolding host_delta recoverable_budget
deltas target prior cash available =
    let recoverable : ℤ = recoverable_budget target prior cash in
    let host : ℕ = host_delta available (pos target.host -ℤ prior.host) recoverable in
    (pos target.tax -ℤ prior.tax)
    ∷ (pos target.protection -ℤ prior.protection)
    ∷ (pos target.reserve -ℤ prior.reserve)
    ∷ pos host
    ∷ (pos target.platform_fees -ℤ prior.platform_fees)
    ∷ (recoverable -ℤ pos host)
    ∷ (pos target.discount -ℤ prior.discount)
    ∷ []

-- The record of deltas that are not negative.
unfoldable pub delta_record : RefundAllocation → PriorAllocation → ℕ → ℤ → RefundAllocation
unfolding host_delta recoverable_budget
delta_record target prior cash available =
    let recoverable : ℤ = recoverable_budget target prior cash in
    let host : ℕ = host_delta available (pos target.host -ℤ prior.host) recoverable in
    record {
      tax = pos_part (pos target.tax -ℤ prior.tax);
      protection = pos_part (pos target.protection -ℤ prior.protection);
      reserve = pos_part (pos target.reserve -ℤ prior.reserve);
      host = host;
      platform_fees = pos_part (pos target.platform_fees -ℤ prior.platform_fees);
      platform_cost = pos_part (recoverable -ℤ pos host);
      discount = pos_part (pos target.discount -ℤ prior.discount);
    }

unfoldable pub additional_marketplace_refund :
    Amounts
    → (cash paid refund_host_bps : ℕ) → PriorAllocation
    → (available_host : ℤ) → Result AllocationError RefundAllocation
unfolding deltas delta_record
additional_marketplace_refund a cash paid refund_host_bps prior available_host = do
  target ← marketplace_refund_allocation a cash paid refund_host_bps a.host_net_cents
  guard (not (any is_unsafe (deltas target prior cash available_host))) requires_review
  ok (delta_record target prior cash available_host)

-- A number of cents that the code accepts.
record IsSafe (n : ℤ) : Type 0 where
  pub not_negative : neg_part n ≡ 0
  pub safe : pos_part n ≤ 9007199254740991

safe_all : (ns : List ℤ) → not (any is_unsafe ns) ≡ true → All IsSafe ns
safe_all [] h = tt
safe_all (n ∷ ns) h =
    (record { not_negative = ground arith; safe = ground arith }, safe_all ns (ground arith))

-- The target of an accepted refund, and its record.
success :
    (a : Amounts) (cash paid bps : ℕ) (prior : PriorAllocation) (available : ℤ)
    (r : RefundAllocation)
    → additional_marketplace_refund a cash paid bps prior available ≡ ok r
    → (target : RefundAllocation) × (marketplace_refund_allocation a cash paid bps a.host_net_cents
        ≡ ok target)
      × All IsSafe (deltas target prior cash available)
      × (delta_record target prior cash available ≡ r)
unfolding additional_marketplace_refund
success a cash paid bps prior available r h =
    let (target, e, h1) =
      >>=-eq-ok (marketplace_refund_allocation a cash paid bps a.host_net_cents) _ h in
    let (_, g, h2) =
      >>=-eq-ok (guard (not (any is_unsafe (deltas target prior cash available))) _) _ h1 in
    (target, e, safe_all (deltas target prior cash available) (guard-eq-ok _ _ g), cc)

-- The parts and the discount, as a list.
abbrev pub parts : RefundAllocation → List ℕ
parts r =
    r.tax ∷ r.protection ∷ r.reserve ∷ r.host ∷ r.platform_fees ∷ r.platform_cost ∷ r.discount ∷ []

abbrev pub IsSafePart : ℕ → Type 0
IsSafePart n = n ≤ 9007199254740991

module _ (target : RefundAllocation) (p : PriorAllocation) (cash : ℕ) (available : ℤ) where
  abbrev delta : RefundAllocation
  delta = delta_record target p cash available

  -- What is left of a budget `b`, less the posted `q` and four deltas, is taken by the last two parts.
  rest_lem :
      (b q x y z w : ℤ) (h : ℕ)
      → neg_part x ≡ 0
      → neg_part y ≡ 0
      → neg_part z ≡ 0
      → neg_part w ≡ 0
      → neg_part (b -ℤ q -ℤ x -ℤ y -ℤ z -ℤ w -ℤ pos h) ≡ 0
      → pos (
            pos_part x
            + pos_part y
            + pos_part z
            + h
            + pos_part w
            + pos_part (b -ℤ q -ℤ x -ℤ y -ℤ z -ℤ w -ℤ pos h))
          +ℤ q
        ≡ b
  rest_lem b q x y z w h nx ny nz nw n = eq_of_parts _ _ (
      omega (
        arith,
        -ℤ_parts b q,
        -ℤ_parts (b -ℤ q) x,
        -ℤ_parts (b -ℤ q -ℤ x) y,
        -ℤ_parts (b -ℤ q -ℤ x -ℤ y) z,
        -ℤ_parts (b -ℤ q -ℤ x -ℤ y -ℤ z) w,
        -ℤ_parts (b -ℤ q -ℤ x -ℤ y -ℤ z -ℤ w) (pos h),
        +ℤ_parts
            (pos (
              pos_part x
              + pos_part y
              + pos_part z
              + h
              + pos_part w
              + pos_part (b -ℤ q -ℤ x -ℤ y -ℤ z -ℤ w -ℤ pos h)))
            q,
      ))

  -- No part of the record is cut off at 0.
  record Exact : Type 0 where
    pub tax_adds : pos delta.tax +ℤ p.tax ≡ pos target.tax
    pub protection_adds : pos delta.protection +ℤ p.protection ≡ pos target.protection
    pub reserve_adds : pos delta.reserve +ℤ p.reserve ≡ pos target.reserve
    pub fees_adds : pos delta.platform_fees +ℤ p.platform_fees ≡ pos target.platform_fees
    pub discount_adds : pos delta.discount +ℤ p.discount ≡ pos target.discount
    pub all_safe : All IsSafePart (parts delta)
    pub host_fits : delta.host ≤ pos_part available
    pub parts_add : pos (recovered delta) +ℤ prior_recovered p ≡ pos (cash + target.discount)

  sub_add : (a : ℕ) (b : ℤ) → neg_part (pos a -ℤ b) ≡ 0 → pos (pos_part (pos a -ℤ b)) +ℤ b ≡ pos a
  sub_add a b h =
      eq_of_parts _ _ (omega (arith, -ℤ_parts (pos a) b, +ℤ_parts (pos (pos_part (pos a -ℤ b))) b))

  exact : All IsSafe (deltas target p cash available) → Exact
  unfolding deltas delta_record host_delta recoverable_budget
  exact a = record {
    tax_adds = sub_add target.tax p.tax a.0.not_negative;
    protection_adds = sub_add target.protection p.protection a.1.0.not_negative;
    reserve_adds = sub_add target.reserve p.reserve a.1.1.0.not_negative;
    fees_adds = sub_add target.platform_fees p.platform_fees a.1.1.1.1.0.not_negative;
    discount_adds = sub_add target.discount p.discount a.1.1.1.1.1.1.0.not_negative;
    host_fits = ground arith;
    all_safe = (
      a.0.safe,
      (
        a.1.0.safe,
        (
          a.1.1.0.safe,
          (a.1.1.1.0.safe, (a.1.1.1.1.0.safe, (a.1.1.1.1.1.0.safe, (a.1.1.1.1.1.1.0.safe, tt)))),
        ),
      ),
    );
    parts_add =
        rest_lem (pos (cash + target.discount)) (prior_recovered p) (pos target.tax -ℤ p.tax)
          (pos target.protection -ℤ p.protection) (pos target.reserve -ℤ p.reserve)
          (pos target.platform_fees -ℤ p.platform_fees) _ a.0.not_negative a.1.0.not_negative
          a.1.1.0.not_negative a.1.1.1.1.0.not_negative a.1.1.1.1.1.0.not_negative;
  }

-- What the postings after a refund come to: with `p` posted before and `r` added, `cash` refunded so far.
pub record Cumulative (a : Amounts) (cash : ℕ) (available : ℤ) (p : PriorAllocation)
    (r : RefundAllocation) : Type 0 where
  pub balances : pos (recovered r) +ℤ prior_recovered p ≡ pos cash +ℤ (pos r.discount +ℤ p.discount)
  pub host_available : r.host ≤ pos_part available
  pub tax_capped : pos r.tax +ℤ p.tax ≤ℤ pos (a.rental_tax_cents + a.fee_tax_cents)
  pub protection_capped : pos r.protection +ℤ p.protection ≤ℤ pos a.protection_cents
  pub reserve_capped : pos r.reserve +ℤ p.reserve ≤ℤ pos a.risk_reserve_cents
  pub fees_capped :
      pos r.platform_fees +ℤ p.platform_fees ≤ℤ pos (a.commission_cents + a.guest_service_cents)
  pub all_safe : All IsSafePart (parts r)
  pub discount_capped : pos r.discount +ℤ p.discount ≤ℤ pos a.platform_discount_cents

cap_lem : (x : ℤ) (m n : ℕ) → x ≡ pos m → m ≤ n → x ≤ℤ pos n
cap_lem x m n e h = ground arith

cumulative :
    (a : Amounts) (cash paid bps : ℕ) (p : PriorAllocation) (available : ℤ)
    (target : RefundAllocation)
    → marketplace_refund_allocation a cash paid bps a.host_net_cents ≡ ok target
    → Exact target p cash available
    → Cumulative a cash available p (delta_record target p cash available)
cumulative a cash paid bps p available target h x =
    let (_, d, w) = refund-Within a cash paid bps a.host_net_cents target h in
    record {
      balances = eq_of_parts _ _ (
          omega (
            arith,
            ap pos_part x.parts_add,
            ap neg_part x.parts_add,
            ap pos_part x.discount_adds,
            ap neg_part x.discount_adds,
            +ℤ_parts (pos cash) (pos (delta_record target p cash available).discount +ℤ p.discount),
          ));
      host_available = x.host_fits;
      tax_capped = cap_lem _ _ _ x.tax_adds w.tax_fits;
      protection_capped = cap_lem _ _ _ x.protection_adds w.protection_fits;
      reserve_capped = cap_lem _ _ _ x.reserve_adds w.reserve_fits;
      fees_capped = cap_lem _ _ _ x.fees_adds w.platform_fits;
      all_safe = x.all_safe;
      discount_capped = cap_lem _ _ _ x.discount_adds d;
    }

-- Whatever is posted already, an additional refund that is accepted brings the postings into balance:
-- what all refunds took from their parts is the cash refunded so far with the discount that came back.
-- The host gives no more than is available, and no total of a liability or of the discount exceeds its
-- frozen amount; every part is a safe integer.
pub additional-Cumulative :
    (a : Amounts) (cash paid bps : ℕ) (p : PriorAllocation) (available : ℤ) (r : RefundAllocation)
    → additional_marketplace_refund a cash paid bps p available ≡ ok r
    → Cumulative a cash available p r
additional-Cumulative a cash paid bps p available r h =
    let (target, t, n, e) = success a cash paid bps p available r h in
    subst (Cumulative a cash available p) e
      (cumulative a cash paid bps p available target t (exact target p cash available n))
