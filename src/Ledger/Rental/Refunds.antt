-- ===== src/Ledger/Rental/Refunds.antt =====
-- A refund that is allocated can be posted: src/lib/marketplace-refund-allocation.ts against
-- src/lib/finance-ledger.ts.
use rent_a_4_wheel.Prelude.{
  false, ℕ, ◌+◌, ◌≤◌, ◌<◌, ◌≡◌, refl, ap, Bool, none, List, All, sum_by, ok, arith,
}
use rent_a_4_wheel.Prelude.Int.{ℤ, pos, pos_part, neg_part, ◌+ℤ◌, +ℤ_parts}
use rent_a_4_wheel.Marketplace.Price.{Amounts}
use rent_a_4_wheel.Marketplace.Refund.{RefundAllocation}
use rent_a_4_wheel.Marketplace.Refund.Totals.{recovered}
use rent_a_4_wheel.Marketplace.Additional.{
  PriorAllocation, prior_recovered, additional_marketplace_refund, Cumulative,
  additional-Cumulative,
}
use rent_a_4_wheel.Ledger.{
  LedgerLine, JournalHeader, LedgerJournal, Ledger, effective_lines, find_journal, is_reversed,
  journal,
}
use rent_a_4_wheel.Ledger.Rental.{refund_lines}
use rent_a_4_wheel.Ledger.Rental.Acceptance.{
  IsSide, is_debit, is_credit, debit_of, credit_of, journal_accepts,
}

module _ (a : Amounts) (cash : ℕ) (available : ℤ) (p : PriorAllocation) (r : RefundAllocation)
    (k : Cumulative a cash available p r) (sent : Bool) (amount : ℕ) where
  sides : amount ≤ 9007199254740991 → All IsSide (refund_lines sent r amount)
  unfolding refund_lines
  sides l =
      let s = k.all_safe in
      (
        is_debit _ _ s.0,
        (
          is_debit _ _ s.1.0,
          (
            is_debit _ _ s.1.1.0,
            (
              is_debit _ _ s.1.1.1.0,
              (
                is_debit _ _ s.1.1.1.1.0,
                (
                  is_debit _ _ s.1.1.1.1.1.0,
                  (is_credit _ _ s.1.1.1.1.1.1.0, (is_credit _ _ l, tt)),
                ),
              ),
            ),
          ),
        ),
      )

  balance :
      (prior_cash : ℕ)
      → prior_recovered p ≡ pos prior_cash +ℤ p.discount
      → cash ≡ prior_cash + amount
      → sum_by debit_of (refund_lines sent r amount) ≡ sum_by credit_of (refund_lines sent r amount)
  unfolding refund_lines
  balance prior_cash b e = omega (
    arith,
    ap pos_part b,
    ap neg_part b,
    ap pos_part k.balances,
    ap neg_part k.balances,
    +ℤ_parts (pos (recovered r)) (prior_recovered p),
    +ℤ_parts (pos prior_cash) p.discount,
    +ℤ_parts (pos cash) (pos r.discount +ℤ p.discount),
    +ℤ_parts (pos r.discount) p.discount,
  )

  positive : 0 < amount → 0 < sum_by credit_of (refund_lines sent r amount)
  unfolding refund_lines
  positive p = omega arith

-- Where the posted refunds are in balance with the cash that they returned, one more refund whose
-- additional allocation is accepted is posted under any key that is free, if it reverses nothing that
-- is reversed already, whether the host's transfer
-- was sent or not.
pub refund_posts :
    (hash : JournalHeader → List LedgerLine → ℕ) (h : JournalHeader) (ledger : Ledger) (a : Amounts)
    (prior_cash amount paid bps : ℕ) (p : PriorAllocation) (available : ℤ) (sent : Bool)
    (r : RefundAllocation)
    → prior_recovered p ≡ pos prior_cash +ℤ p.discount
    → 0 < amount
    → amount ≤ 9007199254740991
    → additional_marketplace_refund a (prior_cash + amount) paid bps p available ≡ ok r
    → find_journal h.key ledger.journals ≡ none
    → is_reversed h.reversal_of ledger.journals ≡ false
    → (row : LedgerJournal) × (ledger' : Ledger) × (journal hash h
          (refund_lines sent r amount)
          ledger
        ≡ ok (row, ledger'))
      × (row.lines ≡ effective_lines (refund_lines sent r amount))
refund_posts hash h ledger a prior_cash amount paid bps p available sent r b z l e f n =
    let k = additional-Cumulative a (prior_cash + amount) paid bps p available r e in
    let q = balance a (prior_cash + amount) available p r k sent amount prior_cash b refl in
    journal_accepts hash h (refund_lines sent r amount) ledger
      (sides a (prior_cash + amount) available p r k sent amount l) q
      (omega (arith, q, positive a (prior_cash + amount) available p r k sent amount z)) f n
