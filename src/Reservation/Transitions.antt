-- ===== src/Reservation/Transitions.antt =====
-- The transition table and the status lists of src/lib/reservation-state-machine.ts, and
-- `canCustomerCancel` of src/lib/reservation-rules.ts.
use rent_a_4_wheel.Prelude.{
  ℕ, Bool, not, List, [], ◌∷◌, ◌++◌, leb, ◌==◌, includes, select, if◌then◌else◌,
}
use rent_a_4_wheel.Schema.Enums.{
  ReservationStatus, draft, checkout_hold, awaiting_payment, payment_failed, confirmed,
  documents_required, ready_for_check_in, check_in_progress, ready_to_start, active,
  return_in_progress, disputed, under_claim_review, completed, cancelled_by_customer,
  cancelled_by_host, expired, status_eq,
}

unfoldable pub reservation_transitions : ReservationStatus → List ReservationStatus
reservation_transitions draft = checkout_hold ∷ expired ∷ cancelled_by_customer ∷ []
reservation_transitions checkout_hold = awaiting_payment ∷ expired ∷ cancelled_by_customer ∷ []
reservation_transitions awaiting_payment =
    confirmed ∷ payment_failed ∷ expired ∷ cancelled_by_customer ∷ []
reservation_transitions payment_failed = awaiting_payment ∷ expired ∷ cancelled_by_customer ∷ []
reservation_transitions confirmed =
    documents_required ∷ cancelled_by_customer ∷ cancelled_by_host ∷ []
reservation_transitions documents_required =
    ready_for_check_in ∷ cancelled_by_customer ∷ cancelled_by_host ∷ []
reservation_transitions ready_for_check_in =
    check_in_progress ∷ cancelled_by_customer ∷ cancelled_by_host ∷ []
reservation_transitions check_in_progress =
    ready_to_start ∷ ready_for_check_in ∷ cancelled_by_customer ∷ cancelled_by_host ∷ []
reservation_transitions ready_to_start = active ∷ cancelled_by_customer ∷ cancelled_by_host ∷ []
reservation_transitions active = return_in_progress ∷ disputed ∷ []
reservation_transitions return_in_progress = completed ∷ disputed ∷ []
reservation_transitions disputed = under_claim_review ∷ completed ∷ []
reservation_transitions under_claim_review = completed ∷ []
reservation_transitions completed = disputed ∷ under_claim_review ∷ []
reservation_transitions cancelled_by_customer = []
reservation_transitions cancelled_by_host = []
reservation_transitions expired = []

abbrev pub transient_hold_statuses : List ReservationStatus
transient_hold_statuses = checkout_hold ∷ awaiting_payment ∷ []

abbrev pub durable_blocking_statuses : List ReservationStatus
durable_blocking_statuses =
    confirmed ∷ documents_required ∷ ready_for_check_in ∷ check_in_progress ∷ ready_to_start
    ∷ active ∷ return_in_progress ∷ disputed ∷ under_claim_review ∷ payment_failed ∷ []

abbrev pub blocking_reservation_statuses : List ReservationStatus
blocking_reservation_statuses = transient_hold_statuses ++ durable_blocking_statuses

abbrev pub non_expiring_statuses : List ReservationStatus
non_expiring_statuses = select (λ s. not (s == payment_failed)) durable_blocking_statuses

unfoldable pub is_transition_allowed : ReservationStatus → ReservationStatus → Bool
unfolding reservation_transitions
is_transition_allowed from to = includes (reservation_transitions from) to

abbrev pub cancelled_statuses : List ReservationStatus
cancelled_statuses = cancelled_by_customer ∷ cancelled_by_host ∷ []

-- CUSTOMER_CANCELLABLE_STATUSES.
abbrev pub customer_cancellable_statuses : List ReservationStatus
customer_cancellable_statuses =
    checkout_hold ∷ awaiting_payment ∷ payment_failed ∷ confirmed ∷ documents_required
    ∷ ready_for_check_in ∷ []

pub data CancelDecision : Type 0 where
  allowed no_longer_cancellable already_started : CancelDecision

unfoldable pub can_customer_cancel : ReservationStatus → (pickup_at now : ℕ) → CancelDecision
can_customer_cancel status pickup_at now =
    if not (includes customer_cancellable_statuses status)
    then no_longer_cancellable
    else if leb pickup_at now
    then already_started
    else allowed
