-- ===== src/Outbox.antt =====
-- `processOutboxOnce` of src/lib/outbox.ts: messages are claimed under a lease, delivered, and saved. The
-- claim and the saving are transactions of their own, so other workers come between them.
pub mod Delivery
use rent_a_4_wheel.Prelude.{
  ℕ, zero, suc, from_option, ◌+◌, ◌*◌, ◌-◌, ◌≡◌, ◌↔◌, Bool, true, false, not, ◌&&◌, ◌||◌, Option,
  none, some, List, [], ◌∷◌, find, select, count_by, update_where, if◌then◌else◌, ltb, leb, nat_beq,
  nat_eq, option_eq, Eq, ◌==◌, arith,
}

-- OutboxMessageStatus.
pub data MessageStatus : Type 0 where
  pending sent failed : MessageStatus

abbrev pub message_rank : MessageStatus → ℕ
message_rank MessageStatus.pending = 0
message_rank MessageStatus.sent = 1
message_rank MessageStatus.failed = 2

abbrev pub message_beq : MessageStatus → MessageStatus → Bool
message_beq a b = nat_beq (message_rank a) (message_rank b)

pub message_beq_iff : (a b : MessageStatus) → (message_beq a b ≡ true) ↔ (a ≡ b)
message_beq_iff a b = ground arith

instance abbrev pub message_eq : Eq MessageStatus
message_eq = record { beq = message_beq; beq_iff = message_beq_iff }

-- `notification` with the type in its payload, or the other type that is handled.
pub data MessageType : Type 0 where
  notification : (has_type : Bool) → MessageType
  finance_schedule unsupported : MessageType

pub record OutboxMessage : Type 0 where
  pub id : ℕ
  pub type : MessageType
  pub status : MessageStatus
  pub attempts : ℕ
  pub created_at : ℕ
  pub first_attempt_at : Option ℕ
  pub lease_token : Option ℕ
  pub lease_expires_at : Option ℕ
  pub next_retry_at : Option ℕ
  pub processed_at : Option ℕ
  pub last_error : Option ℕ

abbrev pub Outbox : Type 0
Outbox = List OutboxMessage

unfoldable pub find_message : ℕ → Outbox → Option OutboxMessage
find_message id ms = find (λ m. m.id == id) ms

-- `OR: [{ … : null }, { … : { lte: now } }]`.
unfoldable pub is_due : (now : ℕ) → Option ℕ → Bool
is_due now none = true
is_due now (some t) = leb t now

unfoldable pub is_candidate : (now : ℕ) → OutboxMessage → Bool
unfolding is_due
is_candidate now m =
    m.status == MessageStatus.pending && is_due now m.next_retry_at && is_due now m.lease_expires_at

-- Oldest first, at most `limit` of them.
insert_oldest : OutboxMessage → Outbox → Outbox
insert_oldest m [] = m ∷ []
insert_oldest m (n ∷ ns) =
    if leb m.created_at n.created_at then m ∷ n ∷ ns else n ∷ insert_oldest m ns

oldest_first : Outbox → Outbox
unfolding insert_oldest
oldest_first [] = []
oldest_first (m ∷ ms) = insert_oldest m (oldest_first ms)

take : ℕ → Outbox → Outbox
take zero ms = []
take (suc n) [] = []
take (suc n) (m ∷ ms) = m ∷ take n ms

pub candidates : (now limit : ℕ) → Outbox → Outbox
unfolding oldest_first take is_candidate
candidates now limit ms = take limit (oldest_first (select (is_candidate now) ms))

-- The time of the first attempt: that of the row, or of its creation where it was tried before.
unfoldable pub first_attempt : (now : ℕ) → OutboxMessage → ℕ
first_attempt now m =
    from_option m.first_attempt_at (if ltb 0 m.attempts then m.created_at else now)

-- The condition of the claim, on the row as it is then; `seen` is the row that was read.
unfoldable pub is_claimable : (now : ℕ) → (seen : OutboxMessage) → OutboxMessage → Bool
unfolding is_due
is_claimable now seen m =
    m.id == seen.id
    && (m.status == MessageStatus.pending
        && m.attempts == seen.attempts
        && is_due now m.lease_expires_at)

abbrev pub lease_ms : ℕ
lease_ms = 120000

unfoldable pub claimed : (now token : ℕ) → OutboxMessage → OutboxMessage → OutboxMessage
unfolding first_attempt
claimed now token seen m = record m {
  lease_token = some token;
  lease_expires_at = some (now + lease_ms);
  first_attempt_at = some (first_attempt now seen);
  attempts = m.attempts + 1;
}

-- Whether the claim took the row, and the rows after it.
unfoldable pub claim_message : (now token : ℕ) → OutboxMessage → Outbox → Bool × Outbox
unfolding is_claimable claimed
claim_message now token seen ms = (
  leb 1 (count_by (is_claimable now seen) ms),
  update_where (is_claimable now seen) (claimed now token seen) ms,
)

-- A repeated delivery is tried within 23 hours of the first attempt.
unfoldable pub may_deliver : (now : ℕ) → (first : ℕ) → OutboxMessage → Bool
may_deliver now first seen = not (ltb 0 seen.attempts && ltb (first + 23 * 3600000) now)

-- A notification is sent, a schedule executed, and everything else fails before anything is sent.
unfoldable pub is_dispatched : (now : ℕ) → (first : ℕ) → OutboxMessage → MessageType → Bool
unfolding may_deliver
is_dispatched now first seen (MessageType.notification has_type) =
    has_type && may_deliver now first seen
is_dispatched now first seen MessageType.finance_schedule = true
is_dispatched now first seen MessageType.unsupported = false

unfoldable pub is_live : (now : ℕ) → Option ℕ → Bool
is_live now none = false
is_live now (some t) = ltb now t

-- The row is still under the lease.
unfoldable pub is_leased : (now id token : ℕ) → OutboxMessage → Bool
is_leased now id token m =
    m.id == id && m.lease_token == some token && is_live now m.lease_expires_at

unfoldable pub save_sent : (now id token : ℕ) → Outbox → Outbox
unfolding is_leased
save_sent now id token ms =
    update_where (is_leased now id token)
      (λ m. record m {
        status = MessageStatus.sent;
        processed_at = some now;
        lease_token = none;
        lease_expires_at = none;
      })
      ms

-- `attempts` are those of the row that was read.
unfoldable pub save_failed : (now id token attempts error : ℕ) → Outbox → Outbox
unfolding is_leased
save_failed now id token attempts error ms =
    update_where (is_leased now id token)
      (λ m. record m {
        status = if leb 4 attempts then MessageStatus.failed else MessageStatus.pending;
        last_error = some error;
        next_retry_at = some (now + 60000);
        lease_token = none;
        lease_expires_at = none;
      })
      ms
