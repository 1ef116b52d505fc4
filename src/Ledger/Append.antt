-- ===== src/Ledger/Append.antt =====
-- The rows that `journal` and `reverseJournal` of src/lib/finance-ledger.ts leave in the ledger.
use rent_a_4_wheel.Prelude.{
  ℕ, ◌≡◌, ◌≢◌, refl, sym, ap, ◌∙◌, Bool-cases, true, Option, none, some, List, [], ◌∷◌, ◌++◌, inl,
  inr, list_eq, nat_eq, list_beq_iff, nat_beq_iff, ok, err, guard, >>=-eq-ok, guard-eq-ok, arith,
}
use rent_a_4_wheel.Ledger.{
  LedgerPosting, LedgerLine, JournalHeader, LedgerJournal, Ledger, LedgerError, effective_lines,
  is_balanced, new_row, find_journal, post, journal,
}

find_journal-append_some :
    (k : List ℕ) (xs ys : List LedgerJournal) (j : LedgerJournal)
    → find_journal k xs ≡ some j
    → find_journal k (xs ++ ys) ≡ some j
unfolding find_journal
find_journal-append_some k [] ys j h = cc
find_journal-append_some k (x ∷ xs) ys j h = ground (arith, find_journal-append_some k xs ys j)

find_journal-append_new :
    (xs : List LedgerJournal) (j : LedgerJournal)
    → find_journal j.header.key xs ≡ none
    → find_journal j.header.key (xs ++ j ∷ []) ≡ some j
unfolding find_journal
find_journal-append_new [] j h = ground (arith, list_beq_iff nat_eq j.header.key j.header.key)
find_journal-append_new (x ∷ xs) j h = ground (arith, find_journal-append_new xs j)

module _ (hash : JournalHeader → List LedgerLine → ℕ) where
  -- The row of the call stands under its key, and every other row stays.
  pub record Appended (h : JournalHeader) (ls : List LedgerLine) (ledger : Ledger)
      (row : LedgerJournal) (ledger' : Ledger) : Type 0 where
    pub stands : find_journal h.key ledger'.journals ≡ some row
    pub fingerprinted : row.fingerprint ≡ hash h ls
    pub kept :
        (k : List ℕ) (j : LedgerJournal)
        → find_journal k ledger.journals ≡ some j
        → find_journal k ledger'.journals ≡ some j

  post-Appended :
      (h : JournalHeader) (ls : List LedgerLine) (o : Option LedgerJournal) (ledger : Ledger)
      (row : LedgerJournal) (ledger' : Ledger)
      → find_journal h.key ledger.journals ≡ o
      → post hash h ls o ledger ≡ ok (row, ledger')
      → Appended h ls ledger row ledger'
  unfolding post
  post-Appended h ls none ledger row ledger' e p = record {
    stands = ground (
      arith,
      find_journal-append_new ledger.journals (new_row ledger.next_id (hash h ls) h ls) e,
    );
    fingerprinted = ground arith;
    kept = λ k j f. ground (arith, find_journal-append_some k ledger.journals (row ∷ []) j f);
  }
  post-Appended h ls (some prior) ledger row ledger' e p = record {
    stands = ground arith;
    fingerprinted = ground (arith, nat_beq_iff prior.fingerprint (hash h ls));
    kept = λ k j f. ground arith;
  }

  pub journal-Appended :
      (h : JournalHeader) (ps : List LedgerPosting) (ledger : Ledger) (row : LedgerJournal)
      (ledger' : Ledger)
      → journal hash h ps ledger ≡ ok (row, ledger')
      → (is_balanced (effective_lines ps) ≡ true)
        × Appended h (effective_lines ps) ledger row ledger'
  unfolding journal
  journal-Appended h ps ledger row ledger' e =
      let (_, g, e1) = >>=-eq-ok (guard (is_balanced (effective_lines ps)) _) _ e in
      (guard-eq-ok _ _ g, post-Appended h (effective_lines ps) _ ledger row ledger' refl e1)

  repeat :
      (h : JournalHeader) (ps : List LedgerPosting) (ledger : Ledger) (row : LedgerJournal)
      → is_balanced (effective_lines ps) ≡ true
      → find_journal h.key ledger.journals ≡ some row
      → row.fingerprint ≡ hash h (effective_lines ps)
      → journal hash h ps ledger ≡ ok (row, ledger)
  unfolding journal post
  repeat h ps ledger row b s f =
      rw b (rw s (ground (arith, nat_beq_iff row.fingerprint (hash h (effective_lines ps)))))

  conflict :
      (h : JournalHeader) (ps : List LedgerPosting) (ledger : Ledger) (row : LedgerJournal)
      → find_journal h.key ledger.journals ≡ some row
      → row.fingerprint ≢ hash h (effective_lines ps)
      → (e : LedgerError) × (journal hash h ps ledger ≡ err e)
  unfolding journal post
  conflict h ps ledger row s n = elim (Bool-cases (is_balanced (effective_lines ps))) [
    | inl b ↦ (
      LedgerError.idempotency_mismatch,
      rw b (rw s (ground (arith, nat_beq_iff row.fingerprint (hash h (effective_lines ps))))),
    )
    | inr b ↦ (LedgerError.unbalanced_journal, rw b refl)
  ]

  -- A posting is made once: the same call again returns the same row and leaves the ledger as it is, a
  -- call under this key that hashes differently fails, and the rows of all keys before stand as they
  -- stood.
  journal_once :
      (h : JournalHeader) (ps : List LedgerPosting) (ledger : Ledger) (row : LedgerJournal)
      (ledger' : Ledger)
      → journal hash h ps ledger ≡ ok (row, ledger')
      → (journal hash h ps ledger' ≡ ok (row, ledger'))
        × ((h2 : JournalHeader) (ps2 : List LedgerPosting)
            → h2.key ≡ h.key
            → hash h2 (effective_lines ps2) ≢ hash h (effective_lines ps)
            → (e : LedgerError) × (journal hash h2 ps2 ledger' ≡ err e))
        × ((k : List ℕ) (j : LedgerJournal)
            → find_journal k ledger.journals ≡ some j
            → find_journal k ledger'.journals ≡ some j)
  journal_once h ps ledger row ledger' e =
      let (b, a) = journal-Appended h ps ledger row ledger' e in
      (
        repeat h ps ledger' row b a.stands a.fingerprinted,
        λ h2 ps2 k n.
            conflict h2 ps2 ledger' row (ap (λ x. find_journal x ledger'.journals) k ∙ a.stands)
              (λ q. n (sym q ∙ a.fingerprinted)),
        a.kept,
      )
