-- ===== src/Marketplace.antt =====
-- The frozen marketplace price and the allocation of refunds: src/lib/marketplace-pricing.ts and
-- src/lib/marketplace-refund-allocation.ts.
pub mod Config
pub mod Price
pub mod Conservation
pub mod Refund
pub mod Additional
