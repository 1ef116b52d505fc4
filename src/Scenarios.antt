-- ===== src/Scenarios.antt =====
-- The results of the library at concrete bookings, payments and events.
mod World
mod Bookings
mod Money
mod Postings
mod Claims
mod Gates
mod SignedIn
mod Disputes
mod Holds
mod Deliveries
mod Captures
