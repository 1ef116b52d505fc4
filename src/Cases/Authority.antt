-- ===== src/Cases/Authority.antt =====
-- What a command of src/lib/service-cases.ts that goes through shows of its sender and of its version.
use rent_a_4_wheel.Prelude.{
  ◌<◌, ◌==◌, ◌⊎◌, inl, inr, Bool, true, false, Bool-cases, List, nat_eq, nat_beq_iff, find-holds,
  find-update_where_away, ℕ, ◌+◌, ◌≡◌, ◌≢◌, some, some-injective, ok, ap, sym, subst, ◌∙◌, arith,
}
use rent_a_4_wheel.Cases.Rows.{ServiceCase, CaseDb}
use rent_a_4_wheel.Cases.Access.{find_case}
use rent_a_4_wheel.Cases.Context.{Policy, CaseCommand, Context}
use rent_a_4_wheel.Cases.Command.{record_command, case_command}
use rent_a_4_wheel.Cases.Inversion.{Commanded, command-Commanded}
use rent_a_4_wheel.Cases.Keeps.{decide-id}
use rent_a_4_wheel.Cases.Decisions.{after_review-cases, written_row, MovedBy, moved_by}

module _ (now user_id id : ℕ) (policy : Policy) (q : CaseCommand) (db db' : CaseDb) where
  -- The row of the case after a command.
  pub next_found :
      (s : Commanded now user_id id policy q db db')
      → find_case id db'.cases ≡ some (record s.next_row { version = s.case_row.version + 1 })
  next_found s =
      subst
        (λ d. find_case id d.cases ≡ some (record s.next_row { version = s.case_row.version + 1 }))
        s.written
        (written_row _ q s.case_row s.next_row db id s.found
          (decide-id _ q s.case_row db q.action s.next_row s.decided))

  moves_by_steps :
      (c c' : ServiceCase)
      → Commanded now user_id id policy q db db'
      → find_case id db.cases ≡ some c
      → find_case id db'.cases ≡ some c'
      → c'.state ≢ c.state
      → MovedBy q.action user_id c db
  moves_by_steps c c' s f f' n =
      let e = some-injective (sym s.found ∙ f) in
      let e' = some-injective (sym (next_found s) ∙ f') in
      subst (λ d. MovedBy q.action user_id d db) e
        (moved_by _ q s.case_row db s.access q.action s.next_row s.decided
          (λ k. n (sym (ap (λ d. d.state) e') ∙ k ∙ ap (λ d. d.state) e)))

-- Whenever a command of a user changes the state of a case, the user is the agent to whom the case was
-- assigned and who may decide its kind and has no part in it, or a party of a claim at a step that is
-- that party's and that the table of transitions has, or a party that appeals a decision.
pub moves_are_authorized :
    (now user_id id : ℕ) (policy : Policy) (q : CaseCommand) (db db' : CaseDb) (c c' : ServiceCase)
    → case_command now user_id id policy q db ≡ ok db'
    → find_case id db.cases ≡ some c
    → find_case id db'.cases ≡ some c'
    → c'.state ≢ c.state
    → MovedBy q.action user_id c db
moves_are_authorized now user_id id policy q db db' c c' h f f' n =
    moves_by_steps now user_id id policy q db db' c c'
      (command-Commanded now user_id id policy q db db' h) f f' n

pub case_found-id :
    (id : ℕ) (cs : List ServiceCase) (c : ServiceCase) → find_case id cs ≡ some c → c.id ≡ id
unfolding find_case
case_found-id id cs c f = (nat_beq_iff c.id id).0 (find-holds (λ x. x.id == id) cs c f)

true_or_false : (b : Bool) → b ≡ true → b ≢ false
true_or_false b h k = ground (arith, h, k)

pub nat_cases : (m n : ℕ) → (m ≡ n) ⊎ (m ≢ n)
nat_cases m n = elim (Bool-cases (m == n)) [
  | inl e ↦ inl ((nat_beq_iff m n).0 e)
  | inr e ↦ inr (λ k. true_or_false (m == n) ((nat_beq_iff m n).1 k) e)
]

-- The commands that go through, of any users on any cases at any times.
pub data Commands : CaseDb → CaseDb → Type 0 where
  none_yet : {db : CaseDb} → Commands db db
  command :
      {db db1 db2 : CaseDb} (now user_id id : ℕ) (policy : Policy) (q : CaseCommand)
      → Commands db db1
      → case_command now user_id id policy q db1 ≡ ok db2
      → Commands db db2

-- The case is there, in a version past the given one.
pub record IsPast (id version : ℕ) (db : CaseDb) : Type 0 where
  pub row : ServiceCase
  pub found : find_case id db.cases ≡ some row
  pub past : version < row.version

-- A command on another case leaves the row alone.
pub other_case :
    (x : Context) (q : CaseCommand) (c c' d : ServiceCase) (db : CaseDb) (id : ℕ)
    → find_case id db.cases ≡ some d
    → c.id ≢ id
    → c'.id ≡ c.id
    → find_case id (record_command x q c c' db).cases ≡ some d
unfolding record_command find_case
other_case x q c c' d db id f n i = rw (after_review-cases q.action c.reservation_id db) (
    find-update_where_away (λ y. y.id == c.id) (λ y. y.id == id)
      (λ y. record c' { version = c.version + 1 }) db.cases
      (λ y e. (
        ground (arith, nat_beq_iff y.id c.id, nat_beq_iff y.id id, n, e),
        ground (arith, nat_beq_iff c'.id id, n, i),
      ))
    ∙ f)

-- Versions only grow.
step-IsPast :
    (now user_id id id' version : ℕ) (policy : Policy) (q : CaseCommand) (db db' : CaseDb)
    → Commanded now user_id id' policy q db db'
    → IsPast id version db
    → IsPast id version db'
step-IsPast now user_id id id' version policy q db db' s p = elim (nat_cases id' id) [
  | inl e ↦ record {
    row = record s.next_row { version = s.case_row.version + 1 };
    found =
        subst
          (λ n.
            find_case n db'.cases ≡ some (record s.next_row { version = s.case_row.version + 1 }))
          e (next_found now user_id id' policy q db db' s);
    past =
        let same =
          some-injective
            (sym p.found ∙ subst (λ n. find_case n db.cases ≡ some s.case_row) e s.found) in
        let v = ap (λ d. d.version) same in let a = p.past in omega arith;
  }
  | inr n ↦ record {
    row = p.row;
    found =
        subst (λ d. find_case id d.cases ≡ some p.row) s.written
          (other_case _ q s.case_row s.next_row p.row db id p.found
            (λ k. n (sym (case_found-id id' db.cases s.case_row s.found) ∙ k))
            (decide-id _ q s.case_row db q.action s.next_row s.decided));
    past = p.past;
  }
]

Commands-IsPast :
    (id version : ℕ) (db db' : CaseDb)
    → IsPast id version db
    → Commands db db'
    → IsPast id version db'
Commands-IsPast id version db _ p none_yet = p
Commands-IsPast id version db db' p (command {db1 = db1} now user_id id' policy q cs h) =
    step-IsPast now user_id id id' version policy q db1 db'
      (command-Commanded now user_id id' policy q db1 db' h)
      (Commands-IsPast id version db db1 p cs)

IsPast-after :
    (now user_id id : ℕ) (policy : Policy) (q : CaseCommand) (db db' : CaseDb)
    → Commanded now user_id id policy q db db'
    → IsPast id q.version db'
IsPast-after now user_id id policy q db db' s = record {
  row = record s.next_row { version = s.case_row.version + 1 };
  found = next_found now user_id id policy q db db' s;
  past = let a = s.current in omega arith;
}

versions_differ :
    (id now user_id now' user_id' : ℕ) (policy policy' : Policy) (q q' : CaseCommand)
    (db db1 db2 db3 : CaseDb)
    → q'.version ≡ q.version
    → Commanded now user_id id policy q db db1
    → Commands db1 db2
    → ¬ Commanded now' user_id' id policy' q' db2 db3
versions_differ id now user_id now' user_id' policy policy' q q' db db1 db2 db3 e s cs t =
    let p =
      Commands-IsPast id q.version db1 db2 (IsPast-after now user_id id policy q db db1 s) cs in
    let v = ap (λ d. d.version) (some-injective (sym p.found ∙ t.found)) in
    let a = p.past in let b = t.current in omega arith

-- After a command on a case has gone through, and any further commands on any cases after it, no command
-- that was written for the same version of the case goes through, whoever sends it and whenever.
pub one_command_per_version :
    (id now user_id now' user_id' : ℕ) (policy policy' : Policy) (q q' : CaseCommand)
    (db db1 db2 db3 : CaseDb)
    → case_command now user_id id policy q db ≡ ok db1
    → Commands db1 db2
    → q'.version ≡ q.version
    → case_command now' user_id' id policy' q' db2 ≢ ok db3
one_command_per_version id now user_id now' user_id' policy policy' q q' db db1 db2 db3 h cs e k =
    versions_differ id now user_id now' user_id' policy policy' q q' db db1 db2 db3 e
      (command-Commanded now user_id id policy q db db1 h) cs
      (command-Commanded now' user_id' id policy' q' db2 db3 k)
