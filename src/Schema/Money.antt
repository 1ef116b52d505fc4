-- ===== src/Schema/Money.antt =====
-- Rows about money: payments, refunds, deposits and the durable operations on the provider.
use rent_a_4_wheel.Prelude.{ℕ, ◌≡◌, ◌↔◌, Bool, true, false, ◌&&◌, Option, arith, Eq, nat_beq}
use rent_a_4_wheel.Schema.Enums.{
  PaymentType, PaymentStatus, RefundStatus, OperationKind, OperationState, IntentStatus,
  ReconciliationReason,
}

pub record Payment : Type 0 where
  pub id : ℕ
  pub reservation_id : ℕ
  pub type : PaymentType
  pub status : PaymentStatus
  pub amount_cents : ℕ
  pub stripe_payment_intent_id : Option ℕ

-- A unique key of a refund or an operation: the text that the code builds, by its parts.
pub data Key : Type 0 where
  deposit_release : ℕ → Key
  deposit : ℕ → ℕ → Key
  legacy_deposit : ℕ → Key
  refund : ℕ → Key
  terminal_refund : ℕ → Key
  custom : ℕ → Key

abbrev pub key_beq : Key → Key → Bool
key_beq (Key.deposit_release i) (Key.deposit_release j) = nat_beq i j
key_beq (Key.deposit r i) (Key.deposit s j) = nat_beq r s && nat_beq i j
key_beq (Key.legacy_deposit i) (Key.legacy_deposit j) = nat_beq i j
key_beq (Key.refund i) (Key.refund j) = nat_beq i j
key_beq (Key.terminal_refund i) (Key.terminal_refund j) = nat_beq i j
key_beq (Key.custom i) (Key.custom j) = nat_beq i j
key_beq _ _ = false

pub key_beq_iff : (a b : Key) → (key_beq a b ≡ true) ↔ (a ≡ b)
key_beq_iff a b = ground arith

instance abbrev pub key_eq : Eq Key
key_eq = record { beq = key_beq; beq_iff = key_beq_iff }

pub record Refund : Type 0 where
  pub id : ℕ
  pub reservation_id : ℕ
  pub payment_id : ℕ
  pub amount_cents : ℕ
  pub status : RefundStatus
  pub legacy_uncertain : Bool
  pub idempotency_key : Key
  pub reason : Option ℕ
  pub initiated_by_id : Option ℕ

-- `failure_reason` is the status that the text of the column names.
pub record SecurityDeposit : Type 0 where
  pub reservation_id : ℕ
  pub amount_cents : ℕ
  pub capturable_amount_cents : ℕ
  pub status : PaymentStatus
  pub stripe_status : Option IntentStatus
  pub stripe_payment_intent_id : Option ℕ
  pub operation_id : Option ℕ
  pub generation : ℕ
  pub legacy_uncertain : Bool
  pub released_at : Option ℕ
  pub authorized_at : Option ℕ
  pub authorization_expires_at : Option ℕ
  pub failure_reason : Option IntentStatus
  pub created_at : ℕ

-- What an operation asks of the provider.
pub data Payload : Type 0 where
  release_intent : ℕ → Payload
  refund_payment : (refund_id : ℕ) (payment_intent_id : Option ℕ) (amount : ℕ) → Payload
  authorize_deposit : (amount customer payment_method : ℕ) → Payload
  legacy : Payload
  custom : ℕ → Payload

-- `result_status` is the status in the stored provider result.
pub record FinancialOperation : Type 0 where
  pub id : ℕ
  pub key : Key
  pub kind : OperationKind
  pub reservation_id : Option ℕ
  pub payload : Payload
  pub fingerprint : ℕ
  pub provider_id : Option ℕ
  pub result_status : Option IntentStatus
  pub generation : Option ℕ
  pub state : OperationState
  pub priority : ℕ
  pub lease_token : Option ℕ
  pub lease_expires_at : Option ℕ
  pub first_attempt_at : Option ℕ
  pub next_attempt_at : Option ℕ
  pub attempts : ℕ
  pub consecutive_failures : ℕ

-- `is_resolved` is status = RESOLVED.
pub record FinancialCase : Type 0 where
  pub id : ℕ
  pub reservation_id : ℕ
  pub is_resolved : Bool

-- `is_open` is status = OPEN, `is_unsettled` status in [OPEN, NEEDS_MANUAL_REVIEW].
pub record PaymentReconciliation : Type 0 where
  pub reservation_id : Option ℕ
  pub payment_id : Option ℕ
  pub reason : ReconciliationReason
  pub is_open : Bool
  pub is_unsettled : Bool
