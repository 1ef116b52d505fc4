-- ===== src/Cases/Closing.antt =====
-- However the commands of src/lib/service-cases.ts move a case, its table of transitions still leads it to
-- CLOSED: appeals and overrides do not leave it.
pub mod Ways
use rent_a_4_wheel.Prelude.{
  ℕ, ◌+◌, ◌≤◌, ◌≡◌, ◌≢◌, refl, Bool, true, false, not, ◌&&◌, ◌||◌, ◌⊎◌, inl, inr, Bool-cases, some,
  some-injective, includes, length, leb, if◌then◌else◌, nat_eq, option_eq, ◌==◌, ok, ok_inj, guard,
  or_throw, >>=-eq-ok, guard-eq-ok, ap, sym, subst, ◌∙◌, arith,
}
use rent_a_4_wheel.Sessions.{Role, role_eq}
use rent_a_4_wheel.Cases.{Kind, kind_eq, kind_beq_iff, CaseState, state_eq, case_states}
use rent_a_4_wheel.Cases.Rows.{
  Action, ServiceCase, CaseDb, wrong_state, forbidden, already_assigned,
}
use rent_a_4_wheel.Cases.Access.{find_case, independent_case_actor}
use rent_a_4_wheel.Cases.Context.{Policy, CaseCommand, Context, decided_states}
use rent_a_4_wheel.Cases.Assignments.{override_case}
use rent_a_4_wheel.Cases.Transitions.{transition_case, appeal_case}
use rent_a_4_wheel.Cases.Command.{decide}
use rent_a_4_wheel.Cases.Inversion.{Commanded, command-Commanded}
use rent_a_4_wheel.Cases.Keeps.{moves_state, decide-Keeps, decide-id, decide-kind}
use rent_a_4_wheel.Cases.Authority.{
  Commands, none_yet, command, next_found, other_case, case_found-id, nat_cases,
}
use rent_a_4_wheel.Cases.Closing.Ways.{
  CanClose, any-next, reported-CanClose, claim_initial_review, claim_resolved, dispute_decided,
  dispute_under_review,
}

-- Where an override and an appeal put a claim or a dispute.
overridden-CanClose :
    (k : Kind)
    → (k == Kind.claim || k == Kind.dispute) ≡ true
    → CanClose k (if k == Kind.dispute then CaseState.decided else CaseState.resolved)
overridden-CanClose Kind.claim h = record { steps = 1; few = omega arith; closes = claim_resolved }
overridden-CanClose Kind.dispute h = record {
  steps = 1;
  few = omega arith;
  closes = dispute_decided;
}
overridden-CanClose Kind.incident h = cc
overridden-CanClose Kind.ticket h = cc

appealed-CanClose :
    (k : Kind)
    → (k == Kind.claim || k == Kind.dispute) ≡ true
    → CanClose k (if k == Kind.dispute then CaseState.under_review else CaseState.initial_review)
appealed-CanClose Kind.claim h = record {
  steps = 7;
  few = omega arith;
  closes = claim_initial_review;
}
appealed-CanClose Kind.dispute h = record {
  steps = 2;
  few = omega arith;
  closes = dispute_under_review;
}
appealed-CanClose Kind.incident h = cc
appealed-CanClose Kind.ticket h = cc

module _ (x : Context) (q : CaseCommand) (c : ServiceCase) (db : CaseDb) where
  transition-state :
      (d : ServiceCase)
      → transition_case x q c db ≡ ok d
      → includes (case_states c.kind c.state) d.state ≡ true
  unfolding transition_case
  transition-state d h = ground arith

  override-state :
      (d : ServiceCase)
      → override_case x q c db ≡ ok d
      → ((c.kind == Kind.claim || c.kind == Kind.dispute) ≡ true)
        × (d.state ≡ (if c.kind == Kind.dispute then CaseState.decided else CaseState.resolved))
  unfolding override_case
  override-state d h = (ground arith, ground arith)

  appeal-state :
      (d : ServiceCase)
      → appeal_case x c db ≡ ok d
      → ((c.kind == Kind.claim || c.kind == Kind.dispute) ≡ true)
        × (d.state
            ≡ (if c.kind == Kind.dispute then CaseState.under_review else CaseState.initial_review))
  unfolding appeal_case
  appeal-state d h = (ground arith, ground arith)

  stays-CanClose :
      (a : Action) (d : ServiceCase)
      → moves_state a ≡ false
      → decide a x q c db ≡ ok d
      → CanClose c.kind c.state
      → CanClose c.kind d.state
  stays-CanClose a d m h w = subst (CanClose c.kind) (sym (decide-Keeps x q c db a d m h).1) w

  state-CanClose :
      (a : Action) (d : ServiceCase)
      → decide a x q c db ≡ ok d
      → CanClose c.kind c.state
      → CanClose c.kind d.state
  unfolding decide
  state-CanClose Action.transition d h w = any-next c.kind c.state d.state (transition-state d h)
  state-CanClose Action.override d h w =
      let (k, e) = override-state d h in
      subst (CanClose c.kind) (sym e) (overridden-CanClose c.kind k)
  state-CanClose Action.appeal d h w =
      let (k, e) = appeal-state d h in subst (CanClose c.kind) (sym e) (appealed-CanClose c.kind k)
  state-CanClose Action.reply d h w = stays-CanClose Action.reply d refl h w
  state-CanClose Action.internal d h w = stays-CanClose Action.internal d refl h w
  state-CanClose Action.assign d h w = stays-CanClose Action.assign d refl h w
  state-CanClose Action.escalate d h w = stays-CanClose Action.escalate d refl h w
  state-CanClose Action.satisfaction d h w = stays-CanClose Action.satisfaction d refl h w
  state-CanClose Action.takeover d h w = stays-CanClose Action.takeover d refl h w
  state-CanClose Action.safety_clear d h w = stays-CanClose Action.safety_clear d refl h w
  state-CanClose Action.reference d h w = stays-CanClose Action.reference d refl h w

  -- Any command leaves the kind of the case, and a way to its end.
  decide-CanClose :
      (a : Action) (d : ServiceCase)
      → decide a x q c db ≡ ok d
      → CanClose c.kind c.state
      → (d.kind ≡ c.kind) × CanClose d.kind d.state
  decide-CanClose a d h w =
      let k = decide-kind x q c db a d h in
      (k, subst (λ n. CanClose n d.state) (sym k) (state-CanClose a d h w))

-- The case is there, of its kind, and can be closed.
record IsClosable (id : ℕ) (k : Kind) (db : CaseDb) : Type 0 where
  pub row : ServiceCase
  pub found : find_case id db.cases ≡ some row
  pub kind_kept : row.kind ≡ k
  pub way : CanClose row.kind row.state

step-IsClosable :
    (now user_id id id' : ℕ) (k : Kind) (policy : Policy) (q : CaseCommand) (db db' : CaseDb)
    → Commanded now user_id id' policy q db db'
    → IsClosable id k db
    → IsClosable id k db'
step-IsClosable now user_id id id' k policy q db db' s p = elim (nat_cases id' id) [
  | inl e ↦
      let next = record s.next_row { version = s.case_row.version + 1 } in
      let same =
        some-injective
          (sym p.found ∙ subst (λ n. find_case n db.cases ≡ some s.case_row) e s.found) in
      let (kept, way) =
        decide-CanClose _ q s.case_row db q.action s.next_row s.decided
          (subst (λ c. CanClose c.kind c.state) same p.way) in
      record {
        row = next;
        found =
            subst (λ n. find_case n db'.cases ≡ some next) e
              (next_found now user_id id' policy q db db' s);
        kind_kept = kept ∙ sym (ap (λ c. c.kind) same) ∙ p.kind_kept;
        way = way;
      }
  | inr n ↦ record {
    row = p.row;
    found =
        subst (λ d. find_case id d.cases ≡ some p.row) s.written
          (other_case _ q s.case_row s.next_row p.row db id p.found
            (λ e. n (sym (case_found-id id' db.cases s.case_row s.found) ∙ e))
            (decide-id _ q s.case_row db q.action s.next_row s.decided));
    kind_kept = p.kind_kept;
    way = p.way;
  }
]

Commands-IsClosable :
    (id : ℕ) (k : Kind) (db db' : CaseDb)
    → IsClosable id k db
    → Commands db db'
    → IsClosable id k db'
Commands-IsClosable id k db _ p none_yet = p
Commands-IsClosable id k db db' p (command {db1 = db1} now user_id id' policy q cs h) =
    step-IsClosable now user_id id id' k policy q db1 db'
      (command-Commanded now user_id id' policy q db1 db' h) (Commands-IsClosable id k db db1 p cs)

-- Whatever commands go through after a case was reported, of any users and on any cases, overrides and
-- appeals among them: the case keeps its kind, and from the state that it is in, at most nine transitions
-- of the table of its kind lead to CLOSED. What the single transitions ask of a user is not part of it.
pub every_case-CanClose :
    (id : ℕ) (db db' : CaseDb) (c c' : ServiceCase)
    → find_case id db.cases ≡ some c
    → c.state ≡ CaseState.reported
    → Commands db db'
    → find_case id db'.cases ≡ some c'
    → (c'.kind ≡ c.kind) × CanClose c'.kind c'.state
every_case-CanClose id db db' c c' f r cs f' =
    let start : IsClosable id c.kind db = record {
      row = c;
      found = f;
      kind_kept = refl;
      way = subst (CanClose c.kind) (sym r) (reported-CanClose c.kind);
    } in
    let p = Commands-IsClosable id c.kind db db' start cs in
    let same = some-injective (sym p.found ∙ f') in
    (subst (λ d. d.kind ≡ c.kind) same p.kind_kept, subst (λ d. CanClose d.kind d.state) same p.way)
