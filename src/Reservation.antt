-- ===== src/Reservation.antt =====
-- The life of a reservation: src/lib/reservation-state-machine.ts and src/lib/reservation-rules.ts.
pub mod Transitions
pub mod Machine
pub mod Lifecycle
