-- ===== src/Ledger/Rental/Acceptance.antt =====
-- Postings that `journal` of src/lib/finance-ledger.ts accepts.
use rent_a_4_wheel.Prelude.{
  ℕ, ◌+◌, ◌≤◌, ◌<◌, ◌≡◌, ◌≢◌, refl, ap, Bool, true, false, ◌⊎◌, inl, inr, none, List, [], ◌∷◌, ◌++◌,
  All, ltb, sum_by, if◌then◌else◌, from_option, ok, arith,
}
use rent_a_4_wheel.Prelude.Int.{
  pos, pos_part, neg_part, ◌+ℤ◌, ◌-ℤ◌, ltb_ℤ, eq_of_parts, +ℤ_parts, -ℤ_parts,
}
use rent_a_4_wheel.Ledger.{
  Account, LedgerPosting, LedgerLine, line_of, JournalHeader, LedgerJournal, Ledger,
  effective_lines, net, new_row, find_journal, is_reversed, post, journal,
}
use rent_a_4_wheel.Ledger.Lines.{IsEntry, IsPosted, posted_is_balanced}
use rent_a_4_wheel.Ledger.Rental.{debit, credit}

-- A posting on one side, of a safe amount.
pub data IsSide : LedgerPosting → Type 0 where
  is_debit : (a : Account) (n : ℕ) → n ≤ 9007199254740991 → IsSide (debit a n)
  is_credit : (a : Account) (n : ℕ) → n ≤ 9007199254740991 → IsSide (credit a n)

abbrev pub debit_of : LedgerPosting → ℕ
debit_of p = pos_part (from_option p.debit_cents (pos 0))

abbrev pub credit_of : LedgerPosting → ℕ
credit_of p = pos_part (from_option p.credit_cents (pos 0))

debit_effective : (n : ℕ) → ltb_ℤ (pos 0) (pos n +ℤ pos 0) ≡ ltb 0 n
debit_effective n = ground (arith, +ℤ_parts (pos n) (pos 0))

credit_effective : (n : ℕ) → ltb_ℤ (pos 0) (pos 0 +ℤ pos n) ≡ ltb 0 n
credit_effective n = ground (arith, +ℤ_parts (pos 0) (pos n))

debit-IsEntry : (a : Account) (n : ℕ) → n ≤ 9007199254740991 → 0 < n → IsEntry (line_of (debit a n))
debit-IsEntry a n h p = record {
  debit_sign = refl;
  credit_sign = refl;
  debit_safe = h;
  credit_safe = omega arith;
  one_sided = inr refl;
  effective = omega arith;
}

credit-IsEntry :
    (a : Account) (n : ℕ) → n ≤ 9007199254740991 → 0 < n → IsEntry (line_of (credit a n))
credit-IsEntry a n h p = record {
  debit_sign = refl;
  credit_sign = refl;
  debit_safe = omega arith;
  credit_safe = h;
  one_sided = inl refl;
  effective = omega arith;
}

-- What the effective lines of such postings are.
record Kept (ps : List LedgerPosting) (ls : List LedgerLine) : Type 0 where
  pub entries : All IsEntry ls
  pub totals : pos_part (net ls) + sum_by credit_of ps ≡ neg_part (net ls) + sum_by debit_of ps
  pub none_left : ls ≡ [] → sum_by debit_of ps + sum_by credit_of ps ≡ 0

skip :
    (p : LedgerPosting) (ps : List LedgerPosting) (ls : List LedgerLine)
    → debit_of p ≡ 0
    → credit_of p ≡ 0
    → Kept ps ls
    → Kept (p ∷ ps) ls
skip p ps ls d c k = record {
  entries = k.entries;
  totals = omega (arith, k.totals);
  none_left = λ e. omega (arith, k.none_left e);
}

add :
    (p : LedgerPosting) (ps : List LedgerPosting) (ls : List LedgerLine)
    → IsEntry (line_of p)
    → Kept ps ls
    → Kept (p ∷ ps) (line_of p ∷ ls)
unfolding net
add p ps ls e k = record {
  entries = (e, k.entries);
  totals = omega (
    arith,
    k.totals,
    e.debit_sign,
    e.credit_sign,
    -ℤ_parts (line_of p).debit_cents (line_of p).credit_cents,
    +ℤ_parts ((line_of p).debit_cents -ℤ (line_of p).credit_cents) (net ls),
  );
  none_left = λ h. cc;
}

side :
    (b : Bool) (p : LedgerPosting) (ps : List LedgerPosting) (ls : List LedgerLine)
    → (b ≡ true → IsEntry (line_of p))
    → (b ≡ false → (debit_of p ≡ 0) × (credit_of p ≡ 0))
    → Kept ps ls
    → Kept (p ∷ ps) (if b then line_of p ∷ ls else ls)
side true p ps ls e z k = add p ps ls (e refl) k
side false p ps ls e z k = skip p ps ls (z refl).0 (z refl).1 k

kept : (ps : List LedgerPosting) → All IsSide ps → Kept ps (effective_lines ps)
unfolding effective_lines net
kept [] s = record { entries = tt; totals = refl; none_left = λ e. omega arith }
kept (_ ∷ ps) (is_debit a n h, s) =
    side _ (debit a n) ps (effective_lines ps)
      (λ e. debit-IsEntry a n h (ground (arith, debit_effective n, e)))
      (λ e. (ground (arith, debit_effective n, e), refl)) (kept ps s)
kept (_ ∷ ps) (is_credit a n h, s) =
    side _ (credit a n) ps (effective_lines ps)
      (λ e. credit-IsEntry a n h (ground (arith, credit_effective n, e)))
      (λ e. (refl, ground (arith, credit_effective n, e))) (kept ps s)

unbalanced :
    (l : LedgerLine)
    → IsEntry l
    → (l.debit_cents -ℤ l.credit_cents) +ℤ pos 0 ≡ pos 0
    → (pos_part l.debit_cents ≡ 0) ⊎ (pos_part l.credit_cents ≡ 0)
    → ⊥
unbalanced l e h z = omega (
  arith,
  z,
  e.debit_sign,
  e.credit_sign,
  e.effective,
  ap pos_part h,
  ap neg_part h,
  -ℤ_parts l.debit_cents l.credit_cents,
  +ℤ_parts (l.debit_cents -ℤ l.credit_cents) (pos 0),
)

one_line : (l : LedgerLine) → IsEntry l → (l.debit_cents -ℤ l.credit_cents) +ℤ pos 0 ≡ pos 0 → ⊥
one_line l e h = elim e.one_sided [
  | inl d ↦ unbalanced l e h (inl (ap pos_part d))
  | inr c ↦ unbalanced l e h (inr (ap pos_part c))
]

posted : (ls : List LedgerLine) → ls ≢ [] → All IsEntry ls → net ls ≡ pos 0 → IsPosted ls
unfolding net
posted [] n a b = absurd (n refl)
posted (l ∷ []) n a b = absurd (one_line l a.0 b)
posted (l ∷ m ∷ ls) n a b = record { two_lines = omega arith; entries = a; balanced = b }

pub sides-IsPosted :
    (ps : List LedgerPosting)
    → All IsSide ps
    → sum_by debit_of ps ≡ sum_by credit_of ps
    → 0 < sum_by debit_of ps
    → IsPosted (effective_lines ps)
sides-IsPosted ps s e p =
    let k = kept ps s in
    posted (effective_lines ps) (λ n. (omega (arith, k.none_left n, p))) k.entries
      (eq_of_parts _ _ (omega (arith, k.totals, e)))

-- A list of one-sided safe amounts whose debits are its credits and not 0 is accepted under a free key, if it reverses
-- nothing that is reversed already.
pub journal_accepts :
    (hash : JournalHeader → List LedgerLine → ℕ) (h : JournalHeader) (ps : List LedgerPosting)
    (ledger : Ledger)
    → All IsSide ps
    → sum_by debit_of ps ≡ sum_by credit_of ps
    → 0 < sum_by debit_of ps
    → find_journal h.key ledger.journals ≡ none
    → is_reversed h.reversal_of ledger.journals ≡ false
    → (row : LedgerJournal) × (ledger' : Ledger) × (journal hash h ps ledger ≡ ok (row, ledger'))
      × (row.lines ≡ effective_lines ps)
unfolding journal post
journal_accepts hash h ps ledger s e p f n =
    let row = new_row ledger.next_id (hash h (effective_lines ps)) h (effective_lines ps) in
    (
      row,
      record { journals = ledger.journals ++ row ∷ []; next_id = ledger.next_id + 1 },
      rw (posted_is_balanced (effective_lines ps) (sides-IsPosted ps s e p)) (rw f (rw n refl)),
      refl,
    )
