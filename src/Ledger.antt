-- ===== src/Ledger.antt =====
-- `journal` and `reverseJournal` of src/lib/finance-ledger.ts: the double-entry ledger.
pub mod Lines
pub mod Balance
pub mod Append
pub mod Reversal
pub mod Rental
use rent_a_4_wheel.Prelude.{
  ℕ, suc, ◌+◌, ◌≡◌, refl, Bool, true, false, not, ◌&&◌, ◌||◌, Option, none, some, List, [], ◌∷◌,
  ◌++◌, map, length, any, find, if◌then◌else◌, list_eq, ltb, leb, nat_beq, nat_eq, option_eq, Eq,
  ◌==◌, from_option, ◌↔◌, Result, ok, err, guard, or_throw, ◌>>=◌, ◌>>◌, arith,
}
use rent_a_4_wheel.Prelude.Int.{ℤ, pos, pos_part, neg_part, ◌+ℤ◌, ◌-ℤ◌, ltb_ℤ}

-- The accounts that the modelled code posts to.
pub data Account : Type 0 where
  stripe_clearing platform_discounts payment_processing_expense host_payable : Account
  platform_rental_revenue commission_revenue unsettled_platform_fees tax_payable : Account
  protection_payable processing_payable host_risk_reserve_payable service_fee_revenue : Account
  deposit_settlement_liability additional_charge_liability refund_suspense : Account
  host_receivable platform_refund_cost memo_deposit_control memo_deposit_authorized : Account

abbrev pub account_rank : Account → ℕ
account_rank stripe_clearing = 0
account_rank platform_discounts = 1
account_rank payment_processing_expense = 2
account_rank host_payable = 3
account_rank platform_rental_revenue = 4
account_rank commission_revenue = 5
account_rank unsettled_platform_fees = 6
account_rank tax_payable = 7
account_rank protection_payable = 8
account_rank processing_payable = 9
account_rank host_risk_reserve_payable = 10
account_rank service_fee_revenue = 11
account_rank deposit_settlement_liability = 12
account_rank additional_charge_liability = 13
account_rank refund_suspense = 14
account_rank host_receivable = 15
account_rank platform_refund_cost = 16
account_rank memo_deposit_control = 17
account_rank memo_deposit_authorized = 18

abbrev pub account_beq : Account → Account → Bool
account_beq a b = nat_beq (account_rank a) (account_rank b)

-- The kinds of journal that the modelled code writes.
pub data JournalKind : Type 0 where
  rental_payment additional_charge deposit_capture refund : JournalKind
  deposit_authorization reversal : JournalKind

-- `LedgerPosting`: an amount may be left out. Amounts are whole cents.
pub record LedgerPosting : Type 0 where
  pub account : Account
  pub debit_cents : Option ℤ
  pub credit_cents : Option ℤ

pub record LedgerLine : Type 0 where
  pub account : Account
  pub debit_cents : ℤ
  pub credit_cents : ℤ

-- The input of `journal` but for its lines. A key is a text; `allocation_evidence` and `description`
-- stand for what they hold.
pub record JournalHeader : Type 0 where
  pub key : List ℕ
  pub kind : JournalKind
  pub currency : List ℕ
  pub reservation_id : Option ℕ
  pub host_id : Option ℕ
  pub operation_id : Option ℕ
  pub provider_id : Option ℕ
  pub reversal_of : Option ℕ
  pub description : List ℕ
  pub allocation_evidence : Option ℕ

pub record LedgerJournal : Type 0 where
  pub id : ℕ
  pub header : JournalHeader
  pub fingerprint : ℕ
  pub lines : List LedgerLine

pub record Ledger : Type 0 where
  pub journals : List LedgerJournal
  pub next_id : ℕ

pub data LedgerError : Type 0 where
  unbalanced_journal idempotency_mismatch journal_not_found already_reversed : LedgerError

-- `?? 0` on both amounts.
abbrev pub line_of : LedgerPosting → LedgerLine
line_of p = record {
  account = p.account;
  debit_cents = from_option p.debit_cents (pos 0);
  credit_cents = from_option p.credit_cents (pos 0);
}

-- The lines that carry an amount.
unfoldable pub effective_lines : List LedgerPosting → List LedgerLine
effective_lines [] = []
effective_lines (p ∷ ps) =
    let rest = effective_lines ps in
    let l : LedgerLine = line_of p in
    if ltb_ℤ (pos 0) (l.debit_cents +ℤ l.credit_cents) then l ∷ rest else rest

-- Number.isSafeInteger, of a whole number that is not negative, and `< 0`.
abbrev pub is_amount : ℤ → Bool
is_amount n = leb (neg_part n) 0 && leb (pos_part n) 9007199254740991

abbrev pub is_zero : ℤ → Bool
is_zero n = leb (pos_part n + neg_part n) 0

-- What the test on each line asks: two amounts, at most one of them not 0.
unfoldable pub is_valid_line : LedgerLine → Bool
is_valid_line l =
    is_amount l.debit_cents
    && is_amount l.credit_cents
    && (is_zero l.debit_cents || is_zero l.credit_cents)

-- `lines.reduce((n, l) => n + l.debitCents - l.creditCents, 0)`.
unfoldable pub net : List LedgerLine → ℤ
net [] = pos 0
net (l ∷ ls) = (l.debit_cents -ℤ l.credit_cents) +ℤ net ls

-- The lines are accepted.
unfoldable pub is_balanced : List LedgerLine → Bool
unfolding is_valid_line net
is_balanced ls = leb 2 (length ls) && not (any (λ l. not (is_valid_line l)) ls) && is_zero (net ls)

-- `findUnique({ where: { key } })`.
unfoldable pub find_journal : List ℕ → List LedgerJournal → Option LedgerJournal
find_journal key js = find (λ j. j.header.key == key) js

-- A row names this journal as the one that it reverses.
unfoldable pub is_reversed : Option ℕ → List LedgerJournal → Bool
is_reversed none js = false
is_reversed (some id) js = any (λ j. j.header.reversal_of == some id) js

-- Debit and credit change places.
unfoldable pub swap_line : LedgerLine → LedgerPosting
swap_line l = record {
  account = l.account;
  debit_cents = some l.credit_cents;
  credit_cents = some l.debit_cents;
}

unfoldable pub reversal_header : LedgerJournal → List ℕ → List ℕ → JournalHeader
reversal_header j key reason = record {
  key = key;
  kind = JournalKind.reversal;
  currency = j.header.currency;
  reservation_id = j.header.reservation_id;
  host_id = j.header.host_id;
  operation_id = none;
  provider_id = none;
  reversal_of = some j.id;
  description = reason;
  allocation_evidence = none;
}

-- The row that `create` inserts.
abbrev pub new_row : (id fingerprint : ℕ) → JournalHeader → List LedgerLine → LedgerJournal
new_row id fingerprint h ls = record { id = id; header = h; fingerprint = fingerprint; lines = ls }

-- `hash` is the SHA-256 of the canonical JSON of the input with the effective lines.
module _ (hash : JournalHeader → List LedgerLine → ℕ) where
  -- The row of the key, or a new one; `reversalOf` is unique, as the key is.
  pub post :
      JournalHeader
      → List LedgerLine
      → Option LedgerJournal
      → Ledger
      → Result LedgerError (LedgerJournal × Ledger)
  post h ls (some prior) ledger = do
    guard (prior.fingerprint == hash h ls) idempotency_mismatch
    ok (prior, ledger)
  post h ls none ledger = do
    guard (not (is_reversed h.reversal_of ledger.journals)) already_reversed
    let row = new_row ledger.next_id (hash h ls) h ls
    ok (row, record { journals = ledger.journals ++ row ∷ []; next_id = ledger.next_id + 1 })

  unfoldable pub journal :
      JournalHeader → List LedgerPosting → Ledger → Result LedgerError (LedgerJournal × Ledger)
  unfolding post
  journal h postings ledger = do
    guard (is_balanced (effective_lines postings)) unbalanced_journal
    post h (effective_lines postings) (find_journal h.key ledger.journals) ledger

  unfoldable pub reverse_journal :
      (id : ℕ) (key reason : List ℕ) → Ledger → Result LedgerError (LedgerJournal × Ledger)
  unfolding journal swap_line reversal_header
  reverse_journal id key reason ledger = do
    j ← or_throw (find (λ j. j.id == id) ledger.journals) journal_not_found
    journal (reversal_header j key reason) (map swap_line j.lines) ledger
