-- ===== src/Schema/Enums.antt =====
-- The enums of prisma/schema.prisma, and the string columns that hold one of a few values.
use rent_a_4_wheel.Prelude.{ℕ, ◌≡◌, ◌↔◌, Bool, true, arith, Eq, nat_beq}

-- Enum ReservationStatus.
pub data ReservationStatus : Type 0 where
  draft checkout_hold awaiting_payment payment_failed : ReservationStatus
  confirmed documents_required ready_for_check_in : ReservationStatus
  check_in_progress ready_to_start active return_in_progress : ReservationStatus
  disputed under_claim_review completed : ReservationStatus
  cancelled_by_customer cancelled_by_host expired : ReservationStatus

abbrev pub status_rank : ReservationStatus → ℕ
status_rank ReservationStatus.draft = 0
status_rank ReservationStatus.checkout_hold = 1
status_rank ReservationStatus.awaiting_payment = 2
status_rank ReservationStatus.payment_failed = 3
status_rank ReservationStatus.confirmed = 4
status_rank ReservationStatus.documents_required = 5
status_rank ReservationStatus.ready_for_check_in = 6
status_rank ReservationStatus.check_in_progress = 7
status_rank ReservationStatus.ready_to_start = 8
status_rank ReservationStatus.active = 9
status_rank ReservationStatus.return_in_progress = 10
status_rank ReservationStatus.disputed = 11
status_rank ReservationStatus.under_claim_review = 12
status_rank ReservationStatus.completed = 13
status_rank ReservationStatus.cancelled_by_customer = 14
status_rank ReservationStatus.cancelled_by_host = 15
status_rank ReservationStatus.expired = 16

abbrev pub status_beq : ReservationStatus → ReservationStatus → Bool
status_beq a b = nat_beq (status_rank a) (status_rank b)

pub status_beq_iff : (a b : ReservationStatus) → (status_beq a b ≡ true) ↔ (a ≡ b)
status_beq_iff a b = ground arith

instance abbrev pub status_eq : Eq ReservationStatus
status_eq = record { beq = status_beq; beq_iff = status_beq_iff }

-- The values of Reservation.financialDisposition (`opened` is OPEN).
pub data FinancialDisposition : Type 0 where
  opened review refund_required terminated : FinancialDisposition

abbrev pub disposition_rank : FinancialDisposition → ℕ
disposition_rank FinancialDisposition.opened = 0
disposition_rank FinancialDisposition.review = 1
disposition_rank FinancialDisposition.refund_required = 2
disposition_rank FinancialDisposition.terminated = 3

abbrev pub disposition_beq : FinancialDisposition → FinancialDisposition → Bool
disposition_beq a b = nat_beq (disposition_rank a) (disposition_rank b)

pub disposition_beq_iff : (a b : FinancialDisposition) → (disposition_beq a b ≡ true) ↔ (a ≡ b)
disposition_beq_iff a b = ground arith

instance abbrev pub disposition_eq : Eq FinancialDisposition
disposition_eq = record { beq = disposition_beq; beq_iff = disposition_beq_iff }

-- Enum PaymentType.
pub data PaymentType : Type 0 where
  rental deposit_auth deposit_capture additional_charge : PaymentType

abbrev pub payment_type_rank : PaymentType → ℕ
payment_type_rank PaymentType.rental = 0
payment_type_rank PaymentType.deposit_auth = 1
payment_type_rank PaymentType.deposit_capture = 2
payment_type_rank PaymentType.additional_charge = 3

abbrev pub payment_type_beq : PaymentType → PaymentType → Bool
payment_type_beq a b = nat_beq (payment_type_rank a) (payment_type_rank b)

pub payment_type_beq_iff : (a b : PaymentType) → (payment_type_beq a b ≡ true) ↔ (a ≡ b)
payment_type_beq_iff a b = ground arith

instance abbrev pub payment_type_eq : Eq PaymentType
payment_type_eq = record { beq = payment_type_beq; beq_iff = payment_type_beq_iff }

-- Enum PaymentStatus.
pub data PaymentStatus : Type 0 where
  requires_payment processing succeeded failed cancelled : PaymentStatus

abbrev pub payment_status_rank : PaymentStatus → ℕ
payment_status_rank PaymentStatus.requires_payment = 0
payment_status_rank PaymentStatus.processing = 1
payment_status_rank PaymentStatus.succeeded = 2
payment_status_rank PaymentStatus.failed = 3
payment_status_rank PaymentStatus.cancelled = 4

abbrev pub payment_status_beq : PaymentStatus → PaymentStatus → Bool
payment_status_beq a b = nat_beq (payment_status_rank a) (payment_status_rank b)

pub payment_status_beq_iff : (a b : PaymentStatus) → (payment_status_beq a b ≡ true) ↔ (a ≡ b)
payment_status_beq_iff a b = ground arith

instance abbrev pub payment_status_eq : Eq PaymentStatus
payment_status_eq = record { beq = payment_status_beq; beq_iff = payment_status_beq_iff }

-- Enum RefundStatus.
pub data RefundStatus : Type 0 where
  pending succeeded failed cancelled : RefundStatus

abbrev pub refund_status_rank : RefundStatus → ℕ
refund_status_rank RefundStatus.pending = 0
refund_status_rank RefundStatus.succeeded = 1
refund_status_rank RefundStatus.failed = 2
refund_status_rank RefundStatus.cancelled = 3

abbrev pub refund_status_beq : RefundStatus → RefundStatus → Bool
refund_status_beq a b = nat_beq (refund_status_rank a) (refund_status_rank b)

pub refund_status_beq_iff : (a b : RefundStatus) → (refund_status_beq a b ≡ true) ↔ (a ≡ b)
refund_status_beq_iff a b = ground arith

instance abbrev pub refund_status_eq : Eq RefundStatus
refund_status_eq = record { beq = refund_status_beq; beq_iff = refund_status_beq_iff }

-- The values of FinancialOperation.kind.
pub data OperationKind : Type 0 where
  rental refund deposit deposit_release customer : OperationKind
  finance_connect finance_transfer finance_payout finance_reversal : OperationKind

abbrev pub operation_kind_rank : OperationKind → ℕ
operation_kind_rank OperationKind.rental = 0
operation_kind_rank OperationKind.refund = 1
operation_kind_rank OperationKind.deposit = 2
operation_kind_rank OperationKind.deposit_release = 3
operation_kind_rank OperationKind.customer = 4
operation_kind_rank OperationKind.finance_connect = 5
operation_kind_rank OperationKind.finance_transfer = 6
operation_kind_rank OperationKind.finance_payout = 7
operation_kind_rank OperationKind.finance_reversal = 8

abbrev pub operation_kind_beq : OperationKind → OperationKind → Bool
operation_kind_beq a b = nat_beq (operation_kind_rank a) (operation_kind_rank b)

pub operation_kind_beq_iff : (a b : OperationKind) → (operation_kind_beq a b ≡ true) ↔ (a ≡ b)
operation_kind_beq_iff a b = ground arith

instance abbrev pub operation_kind_eq : Eq OperationKind
operation_kind_eq = record { beq = operation_kind_beq; beq_iff = operation_kind_beq_iff }

-- The values of FinancialOperation.state.
pub data OperationState : Type 0 where
  ready running retry poll observed review dead_letter : OperationState

abbrev pub operation_state_rank : OperationState → ℕ
operation_state_rank OperationState.ready = 0
operation_state_rank OperationState.running = 1
operation_state_rank OperationState.retry = 2
operation_state_rank OperationState.poll = 3
operation_state_rank OperationState.observed = 4
operation_state_rank OperationState.review = 5
operation_state_rank OperationState.dead_letter = 6

abbrev pub operation_state_beq : OperationState → OperationState → Bool
operation_state_beq a b = nat_beq (operation_state_rank a) (operation_state_rank b)

pub operation_state_beq_iff : (a b : OperationState) → (operation_state_beq a b ≡ true) ↔ (a ≡ b)
operation_state_beq_iff a b = ground arith

instance abbrev pub operation_state_eq : Eq OperationState
operation_state_eq = record { beq = operation_state_beq; beq_iff = operation_state_beq_iff }

-- The status of a Stripe PaymentIntent or Refund, as FinancialOperation.result and SecurityDeposit.stripeStatus hold it.
pub data IntentStatus : Type 0 where
  requires_payment_method requires_confirmation requires_action : IntentStatus
  processing requires_capture canceled succeeded failed pending : IntentStatus

abbrev pub intent_status_rank : IntentStatus → ℕ
intent_status_rank IntentStatus.requires_payment_method = 0
intent_status_rank IntentStatus.requires_confirmation = 1
intent_status_rank IntentStatus.requires_action = 2
intent_status_rank IntentStatus.processing = 3
intent_status_rank IntentStatus.requires_capture = 4
intent_status_rank IntentStatus.canceled = 5
intent_status_rank IntentStatus.succeeded = 6
intent_status_rank IntentStatus.failed = 7
intent_status_rank IntentStatus.pending = 8

abbrev pub intent_status_beq : IntentStatus → IntentStatus → Bool
intent_status_beq a b = nat_beq (intent_status_rank a) (intent_status_rank b)

pub intent_status_beq_iff : (a b : IntentStatus) → (intent_status_beq a b ≡ true) ↔ (a ≡ b)
intent_status_beq_iff a b = ground arith

instance abbrev pub intent_status_eq : Eq IntentStatus
intent_status_eq = record { beq = intent_status_beq; beq_iff = intent_status_beq_iff }

-- ReconciliationReason.
pub data ReconciliationReason : Type 0 where
  deposit_update_failed after_hold_expired dates_unavailable : ReconciliationReason
  after_cancellation window_expired webhook_repeatedly_failed : ReconciliationReason

abbrev pub reason_rank : ReconciliationReason → ℕ
reason_rank ReconciliationReason.deposit_update_failed = 0
reason_rank ReconciliationReason.after_hold_expired = 1
reason_rank ReconciliationReason.dates_unavailable = 2
reason_rank ReconciliationReason.after_cancellation = 3
reason_rank ReconciliationReason.window_expired = 4
reason_rank ReconciliationReason.webhook_repeatedly_failed = 5

abbrev pub reason_beq : ReconciliationReason → ReconciliationReason → Bool
reason_beq a b = nat_beq (reason_rank a) (reason_rank b)

pub reason_beq_iff : (a b : ReconciliationReason) → (reason_beq a b ≡ true) ↔ (a ≡ b)
reason_beq_iff a b = ground arith

instance abbrev pub reason_eq : Eq ReconciliationReason
reason_eq = record { beq = reason_beq; beq_iff = reason_beq_iff }
