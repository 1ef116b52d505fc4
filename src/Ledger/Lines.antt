-- ===== src/Ledger/Lines.antt =====
-- The lines that a journal of src/lib/finance-ledger.ts accepts.
use rent_a_4_wheel.Prelude.{
  suc, ◌+◌, ◌≤◌, ◌<◌, ◌≡◌, refl, ap, Bool, true, false, not, ◌⊎◌, List, [], ◌∷◌, map, length, any,
  All, if◌then◌else◌, arith,
}
use rent_a_4_wheel.Prelude.Int.{
  ℤ, pos, negsuc, pos_part, neg_part, ◌+ℤ◌, ◌-ℤ◌, ltb_ℤ, eq_of_parts, +ℤ_parts, -ℤ_parts,
}
use rent_a_4_wheel.Ledger.{
  LedgerPosting, LedgerLine, line_of, effective_lines, is_zero, is_valid_line, net, is_balanced,
  swap_line,
}

-- One amount that is positive and a safe integer, on one side.
pub record IsEntry (l : LedgerLine) : Type 0 where
  pub debit_sign : neg_part l.debit_cents ≡ 0
  pub credit_sign : neg_part l.credit_cents ≡ 0
  pub debit_safe : pos_part l.debit_cents ≤ 9007199254740991
  pub credit_safe : pos_part l.credit_cents ≤ 9007199254740991
  pub one_sided : (l.debit_cents ≡ pos 0) ⊎ (l.credit_cents ≡ pos 0)
  pub effective : 0 < pos_part l.debit_cents + pos_part l.credit_cents

-- At least two entries whose debits are their credits.
pub record IsPosted (ls : List LedgerLine) : Type 0 where
  pub two_lines : 2 ≤ length ls
  pub entries : All IsEntry ls
  pub balanced : net ls ≡ pos 0

zero_lem : (n : ℤ) → is_zero n ≡ true → n ≡ pos 0
zero_lem (pos n) h = ground arith
zero_lem (negsuc n) h = ground arith

valid-IsEntry :
    (l : LedgerLine)
    → is_valid_line l ≡ true
    → ltb_ℤ (pos 0) (l.debit_cents +ℤ l.credit_cents) ≡ true
    → IsEntry l
unfolding is_valid_line
valid-IsEntry l v e = record {
  debit_sign = ground arith;
  credit_sign = ground arith;
  debit_safe = ground arith;
  credit_safe = ground arith;
  one_sided = ground (arith, zero_lem l.debit_cents, zero_lem l.credit_cents);
  effective = ground (arith, +ℤ_parts l.debit_cents l.credit_cents);
}

abbrev all_valid : List LedgerLine → Bool
all_valid ls = not (any (λ l. not (is_valid_line l)) ls)

keep_entries :
    (b : Bool) (l : LedgerLine) (ls : List LedgerLine)
    → (b ≡ true → ltb_ℤ (pos 0) (l.debit_cents +ℤ l.credit_cents) ≡ true)
    → (all_valid ls ≡ true → All IsEntry ls)
    → all_valid (if b then l ∷ ls else ls) ≡ true
    → All IsEntry (if b then l ∷ ls else ls)
keep_entries true l ls k f h = (valid-IsEntry l (ground arith) (k refl), f (ground arith))
keep_entries false l ls k f h = f h

valid_entries :
    (ps : List LedgerPosting)
    → all_valid (effective_lines ps) ≡ true
    → All IsEntry (effective_lines ps)
unfolding effective_lines
valid_entries [] h = tt
valid_entries (p ∷ ps) h =
    keep_entries _ (line_of p) (effective_lines ps) (λ e. e) (valid_entries ps) h

pub balanced-IsPosted :
    (ps : List LedgerPosting)
    → is_balanced (effective_lines ps) ≡ true
    → IsPosted (effective_lines ps)
unfolding is_balanced
balanced-IsPosted ps h = record {
  two_lines = ground arith;
  entries = valid_entries ps (ground arith);
  balanced = zero_lem (net (effective_lines ps)) (ground arith);
}

-- The line with its sides swapped.
abbrev pub swapped : LedgerLine → LedgerLine
swapped l = record l { debit_cents = l.credit_cents; credit_cents = l.debit_cents }

swapped-IsEntry : (l : LedgerLine) → IsEntry l → IsEntry (swapped l)
swapped-IsEntry l e = record {
  debit_sign = e.credit_sign;
  credit_sign = e.debit_sign;
  debit_safe = e.credit_safe;
  credit_safe = e.debit_safe;
  one_sided = ground (arith, e.one_sided);
  effective = omega (arith, e.effective);
}

effective_swap :
    (l : LedgerLine) → IsEntry l → ltb_ℤ (pos 0) (l.credit_cents +ℤ l.debit_cents) ≡ true
effective_swap l e =
    ground (arith, e.effective, e.debit_sign, e.credit_sign, +ℤ_parts l.credit_cents l.debit_cents)

-- Every entry is effective, so a reversal drops none.
pub effective_lines-swap :
    (ls : List LedgerLine) → All IsEntry ls → effective_lines (map swap_line ls) ≡ map swapped ls
unfolding effective_lines swap_line
effective_lines-swap [] a = refl
effective_lines-swap (l ∷ ls) a =
    rw (effective_swap l a.0) (ap (swapped l ∷◌) (effective_lines-swap ls a.1))

net-swap :
    (ls : List LedgerLine)
    → pos_part (net ls) + pos_part (net (map swapped ls))
      ≡ neg_part (net ls) + neg_part (net (map swapped ls))
unfolding net
net-swap [] = refl
net-swap (l ∷ ls) = omega (
  arith,
  net-swap ls,
  -ℤ_parts l.debit_cents l.credit_cents,
  -ℤ_parts l.credit_cents l.debit_cents,
  +ℤ_parts (l.debit_cents -ℤ l.credit_cents) (net ls),
  +ℤ_parts (l.credit_cents -ℤ l.debit_cents) (net (map swapped ls)),
)

-- An entry passes the test on each line.
entry_valid : (l : LedgerLine) → IsEntry l → is_valid_line l ≡ true
unfolding is_valid_line
entry_valid l e =
    ground (arith, e.debit_sign, e.credit_sign, e.debit_safe, e.credit_safe, e.one_sided)

entries_valid : (ls : List LedgerLine) → All IsEntry ls → all_valid ls ≡ true
entries_valid [] a = refl
entries_valid (l ∷ ls) a = ground (arith, entry_valid l a.0, entries_valid ls a.1)

pub posted_is_balanced : (ls : List LedgerLine) → IsPosted ls → is_balanced ls ≡ true
unfolding is_balanced
posted_is_balanced ls p = ground (arith, entries_valid ls p.entries, p.balanced, p.two_lines)

length-map : (f : LedgerLine → LedgerLine) (ls : List LedgerLine) → length (map f ls) ≡ length ls
length-map f [] = refl
length-map f (l ∷ ls) = ap suc (length-map f ls)

entries-swapped : (ls : List LedgerLine) → All IsEntry ls → All IsEntry (map swapped ls)
entries-swapped [] a = tt
entries-swapped (l ∷ ls) a = (swapped-IsEntry l a.0, entries-swapped ls a.1)

pub swapped-IsPosted : (ls : List LedgerLine) → IsPosted ls → IsPosted (map swapped ls)
swapped-IsPosted ls p = record {
  two_lines = omega (arith, length-map swapped ls, p.two_lines);
  entries = entries-swapped ls p.entries;
  balanced =
      eq_of_parts _ _ (omega (arith, net-swap ls, ap pos_part p.balanced, ap neg_part p.balanced));
}
