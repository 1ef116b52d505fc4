-- ===== src/Lib.antt =====
-- Verification of the booking and payment core of Rent A 4Wheel, a car rental marketplace (Next.js,
-- TypeScript, Prisma on PostgreSQL, Stripe).
--
-- The program's parts and how they interact. A booking is a Reservation row that moves through a table of
-- statuses (src/lib/reservation-state-machine.ts). Availability, jurisdiction and trip gates decide which
-- moves make sense; the financial projection reads payments, refunds and the deposit of a reservation and
-- gates the start of a trip. Whatever is asked of Stripe is first a durable FinancialOperation, made once
-- for each key, then run under a lease. Prices are frozen amounts; a refund is allocated on them, and the
-- ledger posts payments and refunds as balanced journals. Webhooks are claimed under a lease before they
-- are handled, and messages before they are delivered. A captured rental is fulfilled in two transactions
-- with the authorization of the deposit between them. Sessions say who acts, and service cases put the
-- money of a booking under review.
--
-- Which file models which part:
--   Schema       prisma/schema.prisma: the enums, the rows with the columns used, the tables as one state
--                (Db) and what a transaction reads from its surroundings (Env).
--   Jurisdiction src/lib/jurisdiction.ts: jurisdictionDecision and its callers.
--   Finance      Projection: financial-projection.ts; Locks: financial-locks.ts; ReturnAuthority:
--                return-financial-authority.ts; Operations and Runs: prepareOperation and runOperation of
--                financial-operations.ts; ReleasePlan: deposit-release-plan.ts; Refunds: reserveRefund of
--                refund-operations.ts; Deposits: syncDepositIntent and the transaction of
--                attemptDepositAuthorization of deposit-authorization.ts; Provider: assertCurrentLease and
--                assertDispatchAuthority of provider-execution-guard.ts; Fulfilment: requireRefund and
--                confirmAfterRentalPaymentSuccess of stripe-webhook-handlers.ts (all in src/lib).
--   Reservation  Transitions: the table and lists, and reservation-rules.ts; Machine:
--                transitionReservation; Lifecycle: runs of interleaved transitions.
--   Availability src/lib/availability.ts: isVehicleAvailable and getAvailableVehicleIds.
--   Pricing      src/lib/pricing.ts and bookingDays of src/lib/booking-time.ts.
--   Marketplace  Config and Price: src/lib/marketplace-pricing.ts; Refund and Additional:
--                src/lib/marketplace-refund-allocation.ts.
--   Ledger       journal, reverseJournal and the lines of accountReservation, src/lib/finance-ledger.ts.
--   Events       src/lib/stripe-event-ledger.ts.
--   Auth         requestAuthCode and verifyAuthCode of src/lib/auth-code.ts.
--   TripGate     src/lib/trip-gate.ts.
--   Workers      workerResult and workerHttpStatus of src/lib/worker-result.ts.
--   Outbox       processOutboxOnce of src/lib/outbox.ts: candidates, claims and savings.
--   Sessions     Mobile: issueMobileSession, refreshMobileCredential, authenticateMobile and
--                revokeMobileSessions of src/lib/mobile/auth.ts; Devices: src/lib/device-sessions.ts; the
--                roles and lists of src/lib/rbac.ts.
--   Cases        caseCommand and caseStates of src/lib/service-cases.ts (Command, Transitions,
--                Assignments), its access rules of src/lib/collaboration-access.ts, src/lib/marketplace.ts
--                and src/lib/case-decision-authority.ts (Access), and safeText (Text).
--                Authority and Closing follow sequences of its commands.
--   Scenarios    concrete bookings, payments, events, sessions and cases that run the definitions.
--   Prelude      shared tests, lists, equality, results and integers.
--
-- How the code is modelled. A transaction holds the locks of src/lib/financial-locks.ts until it commits,
-- so a function on a transaction client is one step from Db to a Result of Db; a throw is `err`, and the
-- tables stay as they were. Where the code is several transactions (webhook events, runs of operations)
-- each one is a function of its own and interleavings are sequences of steps. A compare-and-swap
-- `updateMany` is `update_where` with the count of the rows that pass. Identifiers, dates (milliseconds)
-- and amounts (cents) are natural numbers, signed amounts are integers; JavaScript numbers are exact there
-- because the code tests Number.isSafeInteger or the columns are 32-bit. SHA-256, bcrypt, the calendar
-- library and the provider's answers are parameters. Loops over rows are structural recursion, and the
-- remainder loop of the refund allocation counts down, so no fuel is used.
--
-- Not modelled: audit rows, notifications and trip events that these functions also write; checkout holds,
-- payouts, financial cases and the pages, routes and storage around them.
pub mod Prelude
pub mod Schema
pub mod Sessions
pub mod Jurisdiction
pub mod Finance
pub mod Reservation
pub mod Availability
pub mod Cases
pub mod Pricing
pub mod Marketplace
pub mod Ledger
pub mod Events
pub mod Auth
pub mod TripGate
pub mod Workers
pub mod Outbox
mod Scenarios
