-- ===== src/Pricing.antt =====
-- src/lib/pricing.ts: the rate tier, the price of a booking and the validity of a coupon.
-- Money is cents. A percentage is in hundredths of a percent, as the columns Decimal(5, 2) hold it, and
-- `Math.round` of a product is exact half-up rounding, where the source computes with doubles.
pub mod Rate
pub mod Quote
pub mod Coupon
