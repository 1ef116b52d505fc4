-- ===== src/Ledger/Balance.antt =====
-- The ledger of src/lib/finance-ledger.ts is in balance after any sequence of postings.
use rent_a_4_wheel.Prelude.{
  ℕ, ◌+◌, ◌≤◌, ◌<◌, ◌≡◌, refl, ap, subst, true, not, Option, none, some, List, [], ◌∷◌, ◌++◌, map,
  find, All, list_eq, nat_eq, ◌==◌, Result, ok, guard, or_throw, >>=-eq-ok, guard-eq-ok, arith,
  count_by, count_by-append, All-append, All-map, find-none-count_by, list_beq_iff,
}
use rent_a_4_wheel.Prelude.Int.{pos, pos_part, neg_part, ◌-ℤ◌, eq_of_parts, +ℤ_parts}
use rent_a_4_wheel.Ledger.{
  LedgerPosting, LedgerLine, JournalHeader, LedgerJournal, Ledger, LedgerError, effective_lines,
  is_balanced, new_row, is_reversed, find_journal, net, post, journal, reverse_journal,
  reversal_header, swap_line,
}
use rent_a_4_wheel.Ledger.Lines.{IsPosted, balanced-IsPosted}

-- Every journal is balanced, and the ids are those given out so far, each once.
pub record WellFormed (ledger : Ledger) : Type 0 where
  pub posted : All (λ j. IsPosted j.lines) ledger.journals
  pub ids_below : All (λ j. j.id < ledger.next_id) ledger.journals
  pub ids_unique : (i : ℕ) → count_by (λ j. j.id == i) ledger.journals ≤ 1
  pub keys_unique : (k : List ℕ) → count_by (λ j. j.header.key == k) ledger.journals ≤ 1

-- All lines, one journal after the other.
pub ledger_lines : List LedgerJournal → List LedgerLine
ledger_lines [] = []
ledger_lines (j ∷ js) = j.lines ++ ledger_lines js

pub net-append :
    (xs ys : List LedgerLine)
    → pos_part (net (xs ++ ys)) + neg_part (net xs) + neg_part (net ys)
      ≡ neg_part (net (xs ++ ys)) + pos_part (net xs) + pos_part (net ys)
unfolding net
net-append [] ys = omega arith
net-append (x ∷ xs) ys = omega (
  arith,
  net-append xs ys,
  +ℤ_parts (x.debit_cents -ℤ x.credit_cents) (net xs),
  +ℤ_parts (x.debit_cents -ℤ x.credit_cents) (net (xs ++ ys)),
)

net-ledger :
    (js : List LedgerJournal) → All (λ j. IsPosted j.lines) js → net (ledger_lines js) ≡ pos 0
unfolding ledger_lines net
net-ledger [] a = refl
net-ledger (j ∷ js) a = eq_of_parts _ _ (
    omega (
      arith,
      net-append j.lines (ledger_lines js),
      ap pos_part a.0.balanced,
      ap neg_part a.0.balanced,
      ap pos_part (net-ledger js a.1),
      ap neg_part (net-ledger js a.1),
    ))

ok_second :
    (a b : LedgerJournal) (x y : Ledger)
    → ◌≡◌ {A = Result LedgerError (LedgerJournal × Ledger)} (ok (a, x)) (ok (b, y))
    → x ≡ y
ok_second a b x y h = cc

module _ (hash : JournalHeader → List LedgerLine → ℕ) where
  -- One call of `journal` or of `reverseJournal` that succeeds.
  pub data Step (ledger ledger' : Ledger) : Type 0 where
    by_journal :
        (h : JournalHeader) (ps : List LedgerPosting) (row : LedgerJournal)
        → journal hash h ps ledger ≡ ok (row, ledger')
        → Step ledger ledger'
    by_reversal :
        (id : ℕ) (key reason : List ℕ) (row : LedgerJournal)
        → reverse_journal hash id key reason ledger ≡ ok (row, ledger')
        → Step ledger ledger'

  -- The ledgers that calls make from an empty one.
  pub data IsReachable : Ledger → Type 0 where
    empty : (n : ℕ) → IsReachable (record { journals = []; next_id = n })
    step :
        {ledger ledger' : Ledger} → IsReachable ledger → Step ledger ledger' → IsReachable ledger'

  count-below :
      (n : ℕ) (js : List LedgerJournal) → All (λ j. j.id < n) js → count_by (λ j. j.id == n) js ≡ 0
  count-below n [] a = refl
  count-below n (j ∷ js) a = ground (arith, count-below n js a.1)

  key_free :
      (js : List LedgerJournal) (key k : List ℕ)
      → find_journal key js ≡ none
      → (key == k) ≡ true
      → count_by (λ j. j.header.key == k) js ≡ 0
  unfolding find_journal
  key_free js key k e b =
      find-none-count_by (λ j. j.header.key == k) js
        (subst (λ x. find (λ j. j.header.key == x) js ≡ none) ((list_beq_iff nat_eq key k).0 b) e)

  append-WellFormed :
      (ledger : Ledger) (h : JournalHeader) (ls : List LedgerLine) (f : ℕ)
      → WellFormed ledger
      → IsPosted ls
      → find_journal h.key ledger.journals ≡ none
      → WellFormed (record {
        journals = ledger.journals ++ new_row ledger.next_id f h ls ∷ [];
        next_id = ledger.next_id + 1;
      })
  unfolding find_journal
  append-WellFormed ledger h ls f w p e =
      let row = new_row ledger.next_id f h ls in
      record {
        posted = All-append (λ j. IsPosted j.lines) ledger.journals (row ∷ []) w.posted (p, tt);
        ids_below =
            All-append (λ j. j.id < ledger.next_id + 1) ledger.journals (row ∷ [])
              (All-map (λ j. j.id < ledger.next_id) (λ j. j.id < ledger.next_id + 1) ledger.journals
                (λ j b. omega arith) w.ids_below)
              (omega arith, tt);
        ids_unique = λ i. ground (
          arith,
          count_by-append (λ j. j.id == i) ledger.journals (row ∷ []),
          w.ids_unique i,
          count-below ledger.next_id ledger.journals w.ids_below,
        );
        keys_unique = λ k. ground (
          arith,
          count_by-append (λ j. j.header.key == k) ledger.journals (row ∷ []),
          w.keys_unique k,
          key_free ledger.journals h.key k e,
        );
      }

  post-WellFormed :
      (h : JournalHeader) (ls : List LedgerLine) (o : Option LedgerJournal) (ledger : Ledger)
      (row : LedgerJournal) (ledger' : Ledger)
      → WellFormed ledger
      → IsPosted ls
      → find_journal h.key ledger.journals ≡ o
      → post hash h ls o ledger ≡ ok (row, ledger')
      → WellFormed ledger'
  unfolding post
  post-WellFormed h ls none ledger row ledger' w p e q =
      let (_, _, q1) = >>=-eq-ok (guard (not (is_reversed h.reversal_of ledger.journals)) _) _ q in
      subst WellFormed (ok_second _ _ _ _ q1) (append-WellFormed ledger h ls (hash h ls) w p e)
  post-WellFormed h ls (some prior) ledger row ledger' w p e q = subst WellFormed (ground arith) w

  pub journal-WellFormed :
      (h : JournalHeader) (ps : List LedgerPosting) (ledger : Ledger) (row : LedgerJournal)
      (ledger' : Ledger)
      → WellFormed ledger
      → journal hash h ps ledger ≡ ok (row, ledger')
      → WellFormed ledger'
  unfolding journal
  journal-WellFormed h ps ledger row ledger' w e =
      let (_, g, e1) = >>=-eq-ok (guard (is_balanced (effective_lines ps)) _) _ e in
      post-WellFormed h (effective_lines ps) _ ledger row ledger' w
        (balanced-IsPosted ps (guard-eq-ok _ _ g)) refl e1

  Step-WellFormed :
      (ledger ledger' : Ledger) → WellFormed ledger → Step ledger ledger' → WellFormed ledger'
  unfolding reverse_journal
  Step-WellFormed ledger ledger' w (by_journal h ps row e) =
      journal-WellFormed h ps ledger row ledger' w e
  Step-WellFormed ledger ledger' w (by_reversal id key reason row e) =
      let (j, _, e1) =
        >>=-eq-ok (or_throw (find (λ j. j.id == id) ledger.journals) LedgerError.journal_not_found)
          _ e in
      journal-WellFormed (reversal_header j key reason) (map swap_line j.lines) ledger row ledger' w
        e1

  pub reachable-WellFormed : (ledger : Ledger) → IsReachable ledger → WellFormed ledger
  reachable-WellFormed _ (empty n) = record {
    posted = tt;
    ids_below = tt;
    ids_unique = λ i. omega arith;
    keys_unique = λ k. omega arith;
  }
  reachable-WellFormed ledger' (step r s) = Step-WellFormed _ ledger' (reachable-WellFormed _ r) s

  -- After any sequence of postings and reversals the whole ledger is in balance, each journal has at
  -- least two entries of one positive side each and balances by itself, and no key and no id is used twice.
  pub trial_balance :
      (ledger : Ledger)
      → IsReachable ledger
      → (net (ledger_lines ledger.journals) ≡ pos 0) × WellFormed ledger
  trial_balance ledger r =
      let w = reachable-WellFormed ledger r in (net-ledger ledger.journals w.posted, w)
