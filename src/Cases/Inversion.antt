-- ===== src/Cases/Inversion.antt =====
-- What a command of src/lib/service-cases.ts that goes through says of its case.
use rent_a_4_wheel.Prelude.{
  ℕ, ◌≡◌, refl, not, ◌&&◌, Option, some, List, ltb, nat_eq, nat_beq_iff, ◌==◌, ok, ok_inj, guard,
  or_throw, >>=-eq-ok, guard-eq-ok, arith,
}
use rent_a_4_wheel.Cases.{CaseState, state_eq}
use rent_a_4_wheel.Cases.Rows.{
  PartyRole, ServiceCase, Account, CaseDb, CaseError, not_found, archived, case_changed,
  unsafe_text,
}
use rent_a_4_wheel.Cases.Text.{safe_text}
use rent_a_4_wheel.Cases.Access.{find_case, case_access}
use rent_a_4_wheel.Cases.Context.{Policy, CaseCommand}
use rent_a_4_wheel.Cases.Command.{decide, record_command, case_command}

pub or_throw_ok {ℓ} :
    {A : Type ℓ} (o : Option A) (e : CaseError) (a : A) → or_throw o e ≡ ok a → o ≡ some a
or_throw_ok o e a h = ground arith

module _ (now user_id id : ℕ) (policy : Policy) (q : CaseCommand) (db db' : CaseDb) where
  -- The steps of a command.
  pub record Commanded : Type 0 where
    pub case_row : ServiceCase
    pub actor : Account
    pub role : PartyRole
    pub body : List ℕ
    pub found : find_case id db.cases ≡ some case_row
    pub access : case_access user_id case_row db ≡ ok (actor, role)
    pub current : case_row.version ≡ q.version
    pub next_row : ServiceCase
    pub decided :
        decide q.action
          (record {
            now = now;
            user_id = user_id;
            actor = actor;
            role = role;
            policy = policy;
            body = body;
          })
          q
          case_row
          db
        ≡ ok next_row
    pub written :
        record_command
          (record {
            now = now;
            user_id = user_id;
            actor = actor;
            role = role;
            policy = policy;
            body = body;
          })
          q
          case_row
          next_row
          db
        ≡ db'

  pub command-Commanded : case_command now user_id id policy q db ≡ ok db' → Commanded
  unfolding case_command
  command-Commanded h =
      let (c, f, h1) = >>=-eq-ok (or_throw (find_case id db.cases) not_found) _ h in
      let ((actor, role), a, h2) = >>=-eq-ok (case_access user_id c db) _ h1 in
      let (_, r, h3) =
        >>=-eq-ok (guard (not (ltb c.retain_until now && c.state == CaseState.closed)) archived) _
          h2 in
      let (_, v, h4) = >>=-eq-ok (guard (c.version == q.version) case_changed) _ h3 in
      let (body, b, h5) = >>=-eq-ok (or_throw (safe_text q.body) unsafe_text) _ h4 in
      let (c', d, h6) = >>=-eq-ok (decide q.action _ q c db) _ h5 in
      record {
        case_row = c;
        actor = actor;
        role = role;
        body = body;
        found = or_throw_ok _ _ c f;
        access = a;
        current = (nat_beq_iff _ _).0 (guard-eq-ok _ _ v);
        next_row = c';
        decided = d;
        written = ok_inj _ _ _ refl h6;
      }
