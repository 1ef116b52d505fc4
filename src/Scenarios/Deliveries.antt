-- ===== src/Scenarios/Deliveries.antt =====
-- A message of the outbox at concrete workers.
use rent_a_4_wheel.Prelude.{◌≡◌, refl, true, false, none, some, [], ◌∷◌, arith}
use rent_a_4_wheel.Outbox.{
  MessageStatus, MessageType, OutboxMessage, find_message, claim_message, save_sent, save_failed,
}
use rent_a_4_wheel.Outbox.Delivery.{Steps, Rival, Rivals, IsLeased, delivered_once}

abbrev waiting : OutboxMessage
waiting = record {
  id = 4;
  type = MessageType.notification true;
  status = MessageStatus.pending;
  attempts = 0;
  created_at = 10;
  first_attempt_at = none;
  lease_token = none;
  lease_expires_at = none;
  next_retry_at = none;
  processed_at = none;
  last_error = none;
}

abbrev taken : OutboxMessage
taken = record waiting {
  attempts = 1;
  first_attempt_at = some 100;
  lease_token = some 77;
  lease_expires_at = some 120100;
}

claim_takes : (claim_message 100 77 waiting (waiting ∷ [])).1 ≡ taken ∷ []
unfolding claim_message
claim_takes = refl

taken-IsLeased : IsLeased 4 77 120100 taken (taken ∷ [])
unfolding find_message
taken-IsLeased = record {
  is_row = record { unique = omega arith; found = refl };
  under = refl;
  expires = refl;
}

-- Another worker tries the same row, and a third saves a failure of its own.
claim_in_between : Rival 77 120100 (taken ∷ []) (taken ∷ [])
unfolding claim_message
claim_in_between = Rival.claims 90000 88 waiting (omega arith)

failure_in_between : Rival 77 120100 (taken ∷ []) (taken ∷ [])
unfolding save_failed
failure_in_between = Rival.fails 90500 4 88 0 5 (λ h. omega arith)

rivals : Rivals 77 120100 (taken ∷ []) (taken ∷ [])
rivals = Rivals.next (Rivals.next Rivals.here claim_in_between) failure_in_between

delivered_once_example :
    ((claim_message 900000 99 taken (save_sent 110000 4 77 (taken ∷ []))).0 ≡ false)
    × (find_message 4 (save_sent 110000 4 77 (taken ∷ []))
        ≡ some (record taken {
          status = MessageStatus.sent;
          processed_at = some 110000;
          lease_token = none;
          lease_expires_at = none;
        }))
delivered_once_example =
    delivered_once 77 120100 110000 900000 99 taken taken (taken ∷ []) (taken ∷ [])
      (save_sent 110000 4 77 (taken ∷ [])) taken-IsLeased rivals (omega arith) Steps.here refl
