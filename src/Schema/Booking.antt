-- ===== src/Schema/Booking.antt =====
-- Rows of a booking, with the columns that the modelled code reads or writes.
-- Identifiers are numbers and a date is a number of milliseconds; `Option` is a nullable column.
use rent_a_4_wheel.Prelude.{ℕ, Option, List}
use rent_a_4_wheel.Schema.Enums.{ReservationStatus, FinancialDisposition}

pub record Reservation : Type 0 where
  pub id : ℕ
  pub customer_id : ℕ
  pub vehicle_id : ℕ
  pub jurisdiction_code : Option (List ℕ)
  pub status : ReservationStatus
  pub financial_disposition : FinancialDisposition
  pub pickup_at : ℕ
  pub return_at : ℕ
  pub expires_at : Option ℕ
  pub checkout_fingerprint : Option ℕ
  pub total_cents : ℕ
  pub deposit_cents : ℕ

pub record Trip : Type 0 where
  pub reservation_id : ℕ
  pub started_at : Option ℕ
  pub ended_at : Option ℕ
