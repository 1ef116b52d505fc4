-- ===== src/Scenarios/Postings.antt =====
-- The ledger after a rental payment, its refund and a reversal.
use rent_a_4_wheel.Prelude.{
  ℕ, ◌+◌, ◌*◌, length, ◌≤◌, ◌<◌, ◌≡◌, ◌≢◌, refl, Bool, true, false, Option, none, some, List, [],
  ◌∷◌, find, nat_eq, list_eq, Eq, ◌==◌, ok, err, inl, inr, arith,
}
use rent_a_4_wheel.Prelude.Int.{ℤ, pos, ◌+ℤ◌}
use rent_a_4_wheel.Ledger.{
  Account, LedgerLine, LedgerPosting, JournalHeader, JournalKind, LedgerJournal, Ledger,
  LedgerError, effective_lines, find_journal, is_reversed, already_reversed, net, journal,
  reverse_journal,
}
use rent_a_4_wheel.Ledger.Balance.{
  IsReachable, empty, step, by_journal, by_reversal, WellFormed, reachable-WellFormed, ledger_lines,
  trial_balance,
}
use rent_a_4_wheel.Ledger.Reversal.{account_net, reversal_cancels}
use rent_a_4_wheel.Ledger.Rental.{marketplace_lines, refund_lines}
use rent_a_4_wheel.Ledger.Rental.Price.{price_posts}
use rent_a_4_wheel.Ledger.Rental.Refunds.{refund_posts}
use rent_a_4_wheel.Marketplace.Price.{calculate_marketplace_price}
use rent_a_4_wheel.Marketplace.Additional.{prior_recovered}
use rent_a_4_wheel.Scenarios.World.{value}
use rent_a_4_wheel.Scenarios.Money.{
  base, config, facts, price, prices, nothing_posted, first_refund, first_refunds,
}

-- A stand-in for the hash: it tells the keys apart by their length.
abbrev hash : JournalHeader → List LedgerLine → ℕ
hash h ls = length h.key + 10 * length ls

abbrev header : List ℕ → JournalKind → JournalHeader
header key kind = record {
  key = key;
  kind = kind;
  currency = b'u' ∷ b's' ∷ b'd' ∷ [];
  reservation_id = some 1;
  host_id = some 9;
  operation_id = none;
  provider_id = none;
  reversal_of = none;
  description = [];
  allocation_evidence = none;
}

abbrev start : Ledger
start = record { journals = []; next_id = 1 }

abbrev payment_header : JournalHeader
payment_header = header (1 ∷ []) JournalKind.rental_payment

abbrev no_row : LedgerJournal
no_row = record { id = 0; header = payment_header; fingerprint = 0; lines = [] }

abbrev posting : LedgerJournal × Ledger
posting =
    value (journal hash payment_header (marketplace_lines price.total_cents price) start)
      (no_row, start)

posts :
    journal hash payment_header (marketplace_lines price.total_cents price) start
    ≡ ok (posting.0, posting.1)
unfolding journal rent_a_4_wheel.Ledger.is_balanced effective_lines marketplace_lines ◌+ℤ◌
    calculate_marketplace_price rent_a_4_wheel.Marketplace.Config.is_valid_config
    rent_a_4_wheel.Marketplace.Price.is_valid_base rent_a_4_wheel.Marketplace.Price.host_is_covered
    rent_a_4_wheel.Marketplace.Price.price_amounts rent_a_4_wheel.Marketplace.Config.amount_for
    rent_a_4_wheel.Marketplace.Price.commission_rate rent_a_4_wheel.Prelude.Int.◌-ℤ◌ find_journal
    is_reversed
posts = refl

gross_fits : price.gross_cents ≤ 2147483647
unfolding calculate_marketplace_price rent_a_4_wheel.Marketplace.Config.is_valid_config
    rent_a_4_wheel.Marketplace.Price.is_valid_base rent_a_4_wheel.Marketplace.Price.host_is_covered
    rent_a_4_wheel.Marketplace.Price.price_amounts rent_a_4_wheel.Marketplace.Config.amount_for
    rent_a_4_wheel.Marketplace.Price.commission_rate rent_a_4_wheel.Prelude.Int.◌-ℤ◌ ◌+ℤ◌
gross_fits = omega arith

total_positive : 0 < price.total_cents
unfolding calculate_marketplace_price rent_a_4_wheel.Marketplace.Config.is_valid_config
    rent_a_4_wheel.Marketplace.Price.is_valid_base rent_a_4_wheel.Marketplace.Price.host_is_covered
    rent_a_4_wheel.Marketplace.Price.price_amounts rent_a_4_wheel.Marketplace.Config.amount_for
    rent_a_4_wheel.Marketplace.Price.commission_rate rent_a_4_wheel.Prelude.Int.◌-ℤ◌ ◌+ℤ◌
total_positive = omega arith

free_start : find_journal payment_header.key start.journals ≡ none
unfolding find_journal
free_start = refl

unreversed_start : is_reversed none start.journals ≡ false
unfolding is_reversed
unreversed_start = refl

price_posts_example :
    (row : LedgerJournal) × (ledger' : Ledger) × (journal hash payment_header
        (marketplace_lines price.total_cents price)
        start
      ≡ ok (row, ledger'))
    × (row.lines ≡ effective_lines (marketplace_lines price.total_cents price))
price_posts_example =
    price_posts hash payment_header start base config facts price prices gross_fits total_positive
      free_start unreversed_start

abbrev reversing : LedgerJournal × Ledger
reversing = value (reverse_journal hash 1 (1 ∷ 2 ∷ []) [] posting.1) (no_row, posting.1)

reverses : reverse_journal hash 1 (1 ∷ 2 ∷ []) [] posting.1 ≡ ok (reversing.0, reversing.1)
unfolding reverse_journal rent_a_4_wheel.Ledger.is_balanced effective_lines marketplace_lines ◌+ℤ◌
    calculate_marketplace_price rent_a_4_wheel.Marketplace.Config.is_valid_config
    rent_a_4_wheel.Marketplace.Price.is_valid_base rent_a_4_wheel.Marketplace.Price.host_is_covered
    rent_a_4_wheel.Marketplace.Price.price_amounts rent_a_4_wheel.Marketplace.Config.amount_for
    rent_a_4_wheel.Marketplace.Price.commission_rate rent_a_4_wheel.Prelude.Int.◌-ℤ◌ find_journal
    is_reversed
reverses = refl

reached_posting : IsReachable hash posting.1
reached_posting =
    step (empty 1)
      (by_journal payment_header (marketplace_lines price.total_cents price) posting.0 posts)

reached_reversal : IsReachable hash reversing.1
reached_reversal = step reached_posting (by_reversal 1 (1 ∷ 2 ∷ []) [] reversing.0 reverses)

trial_balance_example : (net (ledger_lines reversing.1.journals) ≡ pos 0) × WellFormed reversing.1
trial_balance_example = trial_balance hash reversing.1 reached_reversal

found_posting : find (λ x. x.id == 1) posting.1.journals ≡ some posting.0
unfolding journal rent_a_4_wheel.Ledger.is_balanced effective_lines marketplace_lines ◌+ℤ◌
    calculate_marketplace_price rent_a_4_wheel.Marketplace.Config.is_valid_config
    rent_a_4_wheel.Marketplace.Price.is_valid_base rent_a_4_wheel.Marketplace.Price.host_is_covered
    rent_a_4_wheel.Marketplace.Price.price_amounts rent_a_4_wheel.Marketplace.Config.amount_for
    rent_a_4_wheel.Marketplace.Price.commission_rate rent_a_4_wheel.Prelude.Int.◌-ℤ◌ find_journal
    is_reversed
found_posting = refl

free_reversal : find_journal (1 ∷ 2 ∷ []) posting.1.journals ≡ none
unfolding find_journal journal rent_a_4_wheel.Ledger.is_balanced effective_lines marketplace_lines
    ◌+ℤ◌ calculate_marketplace_price rent_a_4_wheel.Marketplace.Config.is_valid_config
    rent_a_4_wheel.Marketplace.Price.is_valid_base rent_a_4_wheel.Marketplace.Price.host_is_covered
    rent_a_4_wheel.Marketplace.Price.price_amounts rent_a_4_wheel.Marketplace.Config.amount_for
    rent_a_4_wheel.Marketplace.Price.commission_rate rent_a_4_wheel.Prelude.Int.◌-ℤ◌ is_reversed
free_reversal = refl

unreversed_posting : is_reversed (some posting.0.id) posting.1.journals ≡ false
unfolding is_reversed journal rent_a_4_wheel.Ledger.is_balanced effective_lines marketplace_lines
    ◌+ℤ◌ calculate_marketplace_price rent_a_4_wheel.Marketplace.Config.is_valid_config
    rent_a_4_wheel.Marketplace.Price.is_valid_base rent_a_4_wheel.Marketplace.Price.host_is_covered
    rent_a_4_wheel.Marketplace.Price.price_amounts rent_a_4_wheel.Marketplace.Config.amount_for
    rent_a_4_wheel.Marketplace.Price.commission_rate rent_a_4_wheel.Prelude.Int.◌-ℤ◌ find_journal
unreversed_posting = refl

reversal_cancels_example :
    (row : LedgerJournal) × (ledger' : Ledger) × (reverse_journal hash 1 (1 ∷ 2 ∷ []) [] posting.1
      ≡ ok (row, ledger'))
    × (row.header.reversal_of ≡ some posting.0.id)
    × ((a : Account) → account_net a posting.0.lines +ℤ account_net a row.lines ≡ pos 0)
    × ((key' reason' : List ℕ)
        → find_journal key' ledger'.journals ≡ none
        → reverse_journal hash 1 key' reason' ledger' ≡ err already_reversed)
reversal_cancels_example =
    reversal_cancels hash posting.1 1 posting.0 (1 ∷ 2 ∷ []) []
      (reachable-WellFormed hash posting.1 reached_posting) found_posting free_reversal
      unreversed_posting

free_key : find_journal (2 ∷ []) posting.1.journals ≡ none
unfolding find_journal journal rent_a_4_wheel.Ledger.is_balanced effective_lines marketplace_lines
    ◌+ℤ◌ calculate_marketplace_price rent_a_4_wheel.Marketplace.Config.is_valid_config
    rent_a_4_wheel.Marketplace.Price.is_valid_base rent_a_4_wheel.Marketplace.Price.host_is_covered
    rent_a_4_wheel.Marketplace.Price.price_amounts rent_a_4_wheel.Marketplace.Config.amount_for
    rent_a_4_wheel.Marketplace.Price.commission_rate rent_a_4_wheel.Prelude.Int.◌-ℤ◌ is_reversed
free_key = refl

nothing_balances : prior_recovered nothing_posted ≡ pos 0 +ℤ nothing_posted.discount
unfolding ◌+ℤ◌
nothing_balances = refl

unreversed_header : is_reversed none posting.1.journals ≡ false
unfolding is_reversed
unreversed_header = refl

refund_posts_example :
    (row : LedgerJournal) × (ledger' : Ledger) × (journal hash
        (header (2 ∷ []) JournalKind.refund)
        (refund_lines true first_refund 15000)
        posting.1
      ≡ ok (row, ledger'))
    × (row.lines ≡ effective_lines (refund_lines true first_refund 15000))
refund_posts_example =
    refund_posts hash (header (2 ∷ []) JournalKind.refund) posting.1 price 0 15000 45000 10000
      nothing_posted (pos 9000) true first_refund nothing_balances (omega arith) (omega arith)
      first_refunds free_key unreversed_header
