-- ===== src/Finance.antt =====
-- The financial side of a reservation: what is paid, refunded, authorized and under review.
pub mod Projection
pub mod Locks
pub mod ReturnAuthority
pub mod Operations
pub mod ReleasePlan
pub mod Deposits
pub mod Refunds
pub mod Runs
pub mod Provider
pub mod Fulfilment
