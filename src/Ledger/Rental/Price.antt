-- ===== src/Ledger/Rental/Price.antt =====
-- A rental payment of a marketplace price can be posted: src/lib/marketplace-pricing.ts against
-- src/lib/finance-ledger.ts.
use rent_a_4_wheel.Prelude.{false, ℕ, ◌≤◌, ◌<◌, ◌≡◌, none, List, All, sum_by, ok, arith}
use rent_a_4_wheel.Marketplace.Config.{MarketplacePricingConfig}
use rent_a_4_wheel.Marketplace.Price.{BasePrice, Facts, Amounts, calculate_marketplace_price}
use rent_a_4_wheel.Marketplace.Conservation.{Conserves, price-Conserves}
use rent_a_4_wheel.Ledger.{
  LedgerLine, JournalHeader, LedgerJournal, Ledger, effective_lines, find_journal, is_reversed,
  journal,
}
use rent_a_4_wheel.Ledger.Rental.{marketplace_lines}
use rent_a_4_wheel.Ledger.Rental.Acceptance.{
  IsSide, is_debit, is_credit, debit_of, credit_of, journal_accepts,
}

sides :
    (a : Amounts)
    → Conserves a
    → a.gross_cents ≤ 2147483647
    → All IsSide (marketplace_lines a.total_cents a)
unfolding marketplace_lines
sides a k g = (
  is_debit _ _ (omega arith),
  (
    is_debit _ _ (omega arith),
    (
      is_debit _ _ (omega arith),
      (
        is_credit _ _ (omega arith),
        (
          is_credit _ _ (omega arith),
          (
            is_credit _ _ (omega arith),
            (
              is_credit _ _ (omega arith),
              (is_credit _ _ (omega arith), (is_credit _ _ (omega arith), tt)),
            ),
          ),
        ),
      ),
    ),
  ),
)

balance :
    (a : Amounts)
    → Conserves a
    → sum_by debit_of (marketplace_lines a.total_cents a)
      ≡ sum_by credit_of (marketplace_lines a.total_cents a)
unfolding marketplace_lines
balance a k = omega arith

positive :
    (a : Amounts) → 0 < a.total_cents → 0 < sum_by debit_of (marketplace_lines a.total_cents a)
unfolding marketplace_lines
positive a p = omega arith

-- The payment of an accepted marketplace price that is not free, with a gross within a 32-bit column,
-- is posted under any key that is free, if it reverses nothing that is reversed already: its frozen amounts balance, and the row has exactly the lines of
-- the allocation that are not 0.
pub price_posts :
    (hash : JournalHeader → List LedgerLine → ℕ) (h : JournalHeader) (ledger : Ledger)
    (base : BasePrice) (c : MarketplacePricingConfig) (facts : Facts) (a : Amounts)
    → calculate_marketplace_price base c facts ≡ ok a
    → a.gross_cents ≤ 2147483647
    → 0 < a.total_cents
    → find_journal h.key ledger.journals ≡ none
    → is_reversed h.reversal_of ledger.journals ≡ false
    → (row : LedgerJournal) × (ledger' : Ledger) × (journal hash h
          (marketplace_lines a.total_cents a)
          ledger
        ≡ ok (row, ledger'))
      × (row.lines ≡ effective_lines (marketplace_lines a.total_cents a))
price_posts hash h ledger base c facts a q g p f n =
    let k = price-Conserves base c facts a q in
    journal_accepts hash h (marketplace_lines a.total_cents a) ledger (sides a k g) (balance a k)
      (positive a p) f n
