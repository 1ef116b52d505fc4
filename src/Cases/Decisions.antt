-- ===== src/Cases/Decisions.antt =====
-- Who moves a case of src/lib/service-cases.ts, and what a command leaves of the money.
use rent_a_4_wheel.Prelude.{
  ℕ, ◌+◌, ◌≡◌, ◌≢◌, refl, Bool, true, false, not, ◌&&◌, ◌||◌, ◌⊎◌, inl, inr, Option, none, some,
  includes, length, leb, find-update_where_only, if◌then◌else◌, nat_eq, option_eq, nat_beq_iff,
  option_beq_iff, ◌==◌, ok, guard, or_throw, >>=-eq-ok, guard-eq-ok, ap, sym, ◌∙◌, arith,
}
use rent_a_4_wheel.Sessions.{Role, role_eq}
use rent_a_4_wheel.Cases.{Kind, kind_eq, CaseState, state_eq, case_states}
use rent_a_4_wheel.Cases.Rows.{
  PartyRole, party_eq, Action, ServiceCase, Account, CaseDb, already_assigned, wrong_state,
  forbidden, not_found, too_short, wait_for_response, not_independent,
}
use rent_a_4_wheel.Cases.Access.{
  find_case, find_account, is_operator, has_rows, has_interest, case_access, marketplace_actor,
  independent_case_actor,
}
use rent_a_4_wheel.Cases.Context.{CaseCommand, Context, decided_states}
use rent_a_4_wheel.Cases.Assignments.{override_case}
use rent_a_4_wheel.Cases.Transitions.{
  transition_case, appeal_case, is_settlement, is_party_step, awaits_response, responses_in,
  agent_decides, review_again,
}
use rent_a_4_wheel.Cases.Command.{decide, after_review, record_command}
use rent_a_4_wheel.Cases.Keeps.{moves_state, decide-Keeps}

review_again-cases : (r : Option ℕ) (db : CaseDb) → (review_again r db).cases ≡ db.cases
unfolding review_again
review_again-cases none db = refl
review_again-cases (some id) db = refl

pub after_review-cases :
    (a : Action) (r : Option ℕ) (db : CaseDb) → (after_review a r db).cases ≡ db.cases
unfolding after_review
after_review-cases Action.appeal r db = review_again-cases r db
after_review-cases Action.reply r db = refl
after_review-cases Action.internal r db = refl
after_review-cases Action.assign r db = refl
after_review-cases Action.escalate r db = refl
after_review-cases Action.satisfaction r db = refl
after_review-cases Action.takeover r db = refl
after_review-cases Action.safety_clear r db = refl
after_review-cases Action.reference r db = refl
after_review-cases Action.transition r db = refl
after_review-cases Action.override r db = refl

-- The row after a command.
pub written_row :
    (x : Context) (q : CaseCommand) (c c' : ServiceCase) (db : CaseDb) (id : ℕ)
    → find_case id db.cases ≡ some c
    → c'.id ≡ c.id
    → find_case id (record_command x q c c' db).cases ≡ some (record c' { version = c.version + 1 })
unfolding record_command find_case
written_row x q c c' db id f i = rw (after_review-cases q.action c.reservation_id db) (
    find-update_where_only (λ d. d.id == id) (λ d. d.id == c.id)
      (λ d. record c' { version = c.version + 1 }) db.cases c
      (λ d e. ap (λ n. n == id) (i ∙ sym ((nat_beq_iff d.id c.id).0 e))) f
      ((nat_beq_iff _ _).1 refl))

-- The agent of a decision: an account that may decide the kind of case and has no part in it.
pub record Independent (c : ServiceCase) (user_id : ℕ) (db : CaseDb) : Type 0 where
  pub agent : Account
  pub found : find_account user_id db.accounts ≡ some agent
  pub authorized : is_operator agent.role c.kind ≡ true
  pub disinterested : has_interest agent c db ≡ false

not-true : (b : Bool) → not b ≡ true → b ≡ false
not-true b h = ground arith

actor_found :
    (user_id : ℕ) (db : CaseDb) (a : Account)
    → marketplace_actor user_id db ≡ ok a
    → find_account user_id db.accounts ≡ some a
unfolding marketplace_actor
actor_found user_id db a h = ground arith

independent :
    (c : ServiceCase) (user_id : ℕ) (db : CaseDb) (a : Account)
    → independent_case_actor c user_id db ≡ ok a
    → Independent c user_id db
unfolding independent_case_actor
independent c user_id db a h =
    let (a1, m, h1) = >>=-eq-ok (marketplace_actor user_id db) _ h in
    let (_, o, h2) = >>=-eq-ok (guard (is_operator a1.role c.kind) not_independent) _ h1 in
    let (_, _, h3) = >>=-eq-ok (guard (has_rows c db) not_found) _ h2 in
    let (_, n, h4) = >>=-eq-ok (guard (not (has_interest a1 c db)) not_independent) _ h3 in
    record {
      agent = a1;
      found = actor_found user_id db a1 m;
      authorized = guard-eq-ok _ _ o;
      disinterested = not-true _ (guard-eq-ok _ _ n);
    }

-- What lets a user move a case by a command: the agent to whom it is assigned, independent of it; a party
-- at a step of the claim that is the party's; or a party that appeals a decision.
pub data MovedBy (a : Action) (user_id : ℕ) (c : ServiceCase) (db : CaseDb) : Type 0 where
  by_agent : Independent c user_id db → c.assigned_to_id ≡ some user_id → MovedBy a user_id c db
  by_party :
      (actor : Account) (role : PartyRole) (state : CaseState)
      → case_access user_id c db ≡ ok (actor, role)
      → is_party_step role state c ≡ true
      → includes (case_states c.kind c.state) state ≡ true
      → MovedBy a user_id c db
  by_appeal :
      (actor : Account) (role : PartyRole)
      → case_access user_id c db ≡ ok (actor, role)
      → a ≡ Action.appeal
      → (includes decided_states c.state && not (role == PartyRole.operator)) ≡ true
      → MovedBy a user_id c db

assigned : (o : Option ℕ) (n : ℕ) → (o == some n) ≡ true → o ≡ some n
assigned o n h = (option_beq_iff nat_eq o (some n)).0 h

agent_decided :
    (x : Context) (c : ServiceCase) (db : CaseDb) {u : Unit {0}}
    → agent_decides x c db ≡ ok u
    → Independent c x.user_id db × (c.assigned_to_id ≡ some x.user_id)
unfolding agent_decides
agent_decided x c db h =
    let (a, i, h1) = >>=-eq-ok (independent_case_actor c x.user_id db) _ h in
    (independent c x.user_id db a i, assigned _ _ (guard-eq-ok _ _ h1))

operator_or_party : (o p : Bool) → (o || p) ≡ true → (o ≡ true) ⊎ (p ≡ true)
operator_or_party o p h = ground arith

module _ (x : Context) (q : CaseCommand) (c : ServiceCase) (db : CaseDb)
    (access : case_access x.user_id c db ≡ ok (x.actor, x.role)) where
  step_by :
      (a : Action) (state : CaseState) {u : Unit {0}}
      → includes (case_states c.kind c.state) state ≡ true
      → ((x.role == PartyRole.operator) ≡ true) ⊎ (is_party_step x.role state c ≡ true)
      → (if x.role == PartyRole.operator then agent_decides x c db else ok tt) ≡ ok u
      → MovedBy a x.user_id c db
  step_by a state t (inl o) h = let (i, n) = agent_decided x c db (rw o at h) in by_agent i n
  step_by a state t (inr p) h = by_party x.actor x.role state access p t

  transition_by :
      (a : Action) (d : ServiceCase) → transition_case x q c db ≡ ok d → MovedBy a x.user_id c db
  unfolding transition_case
  transition_by a d h =
      let (state, s, h1) = >>=-eq-ok (or_throw q.state wrong_state) _ h in
      let (_, t, h2) =
        >>=-eq-ok (guard (includes (case_states c.kind c.state) state) wrong_state) _ h1 in
      let (_, _, h3) =
        >>=-eq-ok (guard (not (is_settlement state c) || x.role == PartyRole.customer) forbidden) _
          h2 in
      let (_, _, h4) = >>=-eq-ok (guard (leb 10 (length x.body)) too_short) _ h3 in
      let (_, _, h5) =
        >>=-eq-ok (guard (not (awaits_response x state c) || responses_in c db) wait_for_response) _
          h4 in
      let (_, p, h6) =
        >>=-eq-ok (guard (x.role == PartyRole.operator || is_party_step x.role state c) forbidden) _
          h5 in
      let (_, g, _) =
        >>=-eq-ok (if x.role == PartyRole.operator then agent_decides x c db else ok tt) _ h6 in
      step_by a state (guard-eq-ok _ _ t) (operator_or_party _ _ (guard-eq-ok _ _ p)) g

  override_by :
      (a : Action) (d : ServiceCase) → override_case x q c db ≡ ok d → MovedBy a x.user_id c db
  unfolding override_case
  override_by a d h =
      let (_, _, h1) =
        >>=-eq-ok
          (guard
            (x.actor.role == Role.super_admin
              && not (includes decided_states c.state)
              && (c.kind == Kind.claim || c.kind == Kind.dispute))
            forbidden)
          _ h in
      let (agent, i, h2) = >>=-eq-ok (independent_case_actor c x.user_id db) _ h1 in
      let (_, n, _) =
        >>=-eq-ok (guard (c.assigned_to_id == some x.user_id) already_assigned) _ h2 in
      by_agent (independent c x.user_id db agent i) (assigned _ _ (guard-eq-ok _ _ n))

  appeal_by : (d : ServiceCase) → appeal_case x c db ≡ ok d → MovedBy Action.appeal x.user_id c db
  unfolding appeal_case
  appeal_by d h =
      let (_, g, _) =
        >>=-eq-ok
          (guard (includes decided_states c.state && not (x.role == PartyRole.operator))
            wrong_state)
          _ h in
      by_appeal x.actor x.role access refl (guard-eq-ok _ _ g)

  kept :
      (a : Action) (d : ServiceCase)
      → moves_state a ≡ false
      → decide a x q c db ≡ ok d
      → d.state ≢ c.state
      → MovedBy a x.user_id c db
  kept a d m h n = absurd (n (decide-Keeps x q c db a d m h).1)

  pub moved_by :
      (a : Action) (d : ServiceCase)
      → decide a x q c db ≡ ok d
      → d.state ≢ c.state
      → MovedBy a x.user_id c db
  unfolding decide
  moved_by Action.transition d h n = transition_by Action.transition d h
  moved_by Action.override d h n = override_by Action.override d h
  moved_by Action.appeal d h n = appeal_by d h
  moved_by Action.reply d h n = kept Action.reply d refl h n
  moved_by Action.internal d h n = kept Action.internal d refl h n
  moved_by Action.assign d h n = kept Action.assign d refl h n
  moved_by Action.escalate d h n = kept Action.escalate d refl h n
  moved_by Action.satisfaction d h n = kept Action.satisfaction d refl h n
  moved_by Action.takeover d h n = kept Action.takeover d refl h n
  moved_by Action.safety_clear d h n = kept Action.safety_clear d refl h n
  moved_by Action.reference d h n = kept Action.reference d refl h n
