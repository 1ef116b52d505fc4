-- ===== src/Ledger/Reversal.antt =====
-- `reverseJournal` of src/lib/finance-ledger.ts cancels what it reverses.
use rent_a_4_wheel.Prelude.{
  ℕ, ◌+◌, ◌≡◌, refl, ap, Bool, true, false, none, some, any, option_eq, option_beq_iff, List, [],
  ◌∷◌, ◌++◌, map, find, All-find, find-append, any-append_last, if◌then◌else◌, nat_eq, ◌==◌, ok,
  err, arith,
}
use rent_a_4_wheel.Prelude.Int.{
  ℤ, pos, pos_part, neg_part, ◌+ℤ◌, ◌-ℤ◌, eq_of_parts, +ℤ_parts, -ℤ_parts,
}
use rent_a_4_wheel.Ledger.{
  Account, account_beq, LedgerLine, JournalHeader, LedgerJournal, Ledger, new_row, find_journal,
  is_reversed, already_reversed, post, journal, reverse_journal, reversal_header,
}
use rent_a_4_wheel.Ledger.Lines.{
  IsPosted, swapped, effective_lines-swap, swapped-IsPosted, posted_is_balanced,
}
use rent_a_4_wheel.Ledger.Balance.{WellFormed}

-- Debits less credits of one account.
pub account_net : Account → List LedgerLine → ℤ
account_net a [] = pos 0
account_net a (l ∷ ls) =
    (if account_beq l.account a then l.debit_cents -ℤ l.credit_cents else pos 0) +ℤ account_net a ls

swap_step :
    (b : Bool) (d c n m : ℤ)
    → n +ℤ m ≡ pos 0
    → ((if b then d -ℤ c else pos 0) +ℤ n) +ℤ ((if b then c -ℤ d else pos 0) +ℤ m) ≡ pos 0
swap_step true d c n m h = eq_of_parts _ _ (
    omega (
      arith,
      ap pos_part h,
      ap neg_part h,
      +ℤ_parts n m,
      -ℤ_parts d c,
      -ℤ_parts c d,
      +ℤ_parts (d -ℤ c) n,
      +ℤ_parts (c -ℤ d) m,
      +ℤ_parts ((d -ℤ c) +ℤ n) ((c -ℤ d) +ℤ m),
    ))
swap_step false d c n m h = eq_of_parts _ _ (
    omega (
      arith,
      ap pos_part h,
      ap neg_part h,
      +ℤ_parts n m,
      +ℤ_parts (pos 0) n,
      +ℤ_parts (pos 0) m,
      +ℤ_parts (pos 0 +ℤ n) (pos 0 +ℤ m),
    ))

account_net-swapped :
    (a : Account) (ls : List LedgerLine)
    → account_net a ls +ℤ account_net a (map swapped ls) ≡ pos 0
unfolding account_net
account_net-swapped a [] = eq_of_parts _ _ (omega (arith, +ℤ_parts (pos 0) (pos 0)))
account_net-swapped a (l ∷ ls) =
    swap_step (account_beq l.account a) l.debit_cents l.credit_cents _ _ (account_net-swapped a ls)

module _ (hash : JournalHeader → List LedgerLine → ℕ) where
  again :
      (ledger : Ledger) (j : LedgerJournal) (id : ℕ) (key reason : List ℕ)
      → IsPosted j.lines
      → find (λ x. x.id == id) ledger.journals ≡ some j
      → find_journal key ledger.journals ≡ none
      → (any (λ x. x.header.reversal_of == some j.id) ledger.journals) ≡ true
      → reverse_journal hash id key reason ledger ≡ err already_reversed
  unfolding reverse_journal journal post reversal_header is_reversed
  again ledger j id key reason p f k a =
      let ls = map swapped j.lines in
      rw f (
        rw (effective_lines-swap j.lines p.entries)
          (rw (posted_is_balanced ls (swapped-IsPosted j.lines p)) (rw (k, a) refl)))

  -- A journal of a well-formed ledger that is not reversed can be reversed under any key that is free;
  -- the reversal names it, on every account the two cancel, and it cannot be reversed again under a key
  -- that is free then.
  pub reversal_cancels :
      (ledger : Ledger) (id : ℕ) (j : LedgerJournal) (key reason : List ℕ)
      → WellFormed ledger
      → find (λ x. x.id == id) ledger.journals ≡ some j
      → find_journal key ledger.journals ≡ none
      → is_reversed (some j.id) ledger.journals ≡ false
      → (row : LedgerJournal) × (ledger' : Ledger) × (reverse_journal hash id key reason ledger
          ≡ ok (row, ledger'))
        × (row.header.reversal_of ≡ some j.id)
        × ((a : Account) → account_net a j.lines +ℤ account_net a row.lines ≡ pos 0)
        × ((key' reason' : List ℕ)
            → find_journal key' ledger'.journals ≡ none
            → reverse_journal hash id key' reason' ledger' ≡ err already_reversed)
  unfolding reverse_journal journal post reversal_header
  reversal_cancels ledger id j key reason w f k n =
      let p = All-find (λ x. IsPosted x.lines) (λ x. x.id == id) ledger.journals j w.posted f in
      let ls = map swapped j.lines in
      let h = reversal_header j key reason in
      let row = new_row ledger.next_id (hash h ls) h ls in
      (
        row,
        record { journals = ledger.journals ++ row ∷ []; next_id = ledger.next_id + 1 },
        rw f (
            rw (effective_lines-swap j.lines p.entries)
              (rw (posted_is_balanced ls (swapped-IsPosted j.lines p)) (rw (k, n) refl))),
        refl,
        λ a. account_net-swapped a j.lines,
        λ key' reason' k'.
            again (record { journals = ledger.journals ++ row ∷ []; next_id = ledger.next_id + 1 })
              j id key' reason' p (find-append (λ x. x.id == id) ledger.journals (row ∷ []) j f) k'
              (any-append_last (λ x. x.header.reversal_of == some j.id) ledger.journals row
                ((option_beq_iff nat_eq (some j.id) (some j.id)).1 refl)),
      )
