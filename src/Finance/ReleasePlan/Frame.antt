-- ===== src/Finance/ReleasePlan/Frame.antt =====
-- Planning releases touches the operations and no other table.
use rent_a_4_wheel.Prelude.{ℕ, ◌≡◌, ◌∙◌, List, [], ◌∷◌, nat_eq, ok, >>=-eq-ok, arith}
use rent_a_4_wheel.Schema.Database.{Db, Env, find_deposit}
use rent_a_4_wheel.Finance.Operations.{prepare_operation}
use rent_a_4_wheel.Finance.Operations.Prepare.{prepare-Prepared}
use rent_a_4_wheel.Finance.ReleasePlan.{
  release_params, plan_deposit_release, plan_targets, plan_all_deposit_releases, deposit_targets,
  current_target,
}

plan_one-reservations :
    (env : Env) (id t : ℕ) (db db' : Db)
    → plan_deposit_release env id t db ≡ ok db'
    → db'.reservations ≡ db.reservations
unfolding plan_deposit_release
plan_one-reservations env id t db db' h =
    let ((op, db1), e, h1) = >>=-eq-ok (prepare_operation env (release_params id t) db) _ h in
    ground (arith, (prepare-Prepared env (release_params id t) db op db1 e).same_reservations)

pub plan_targets-reservations :
    (env : Env) (id : ℕ) (ts : List ℕ) (db db' : Db)
    → plan_targets env id ts db ≡ ok db'
    → db'.reservations ≡ db.reservations
unfolding plan_targets
plan_targets-reservations env id [] db db' h = ground arith
plan_targets-reservations env id (t ∷ ts) db db' h =
    let (db1, e, h1) = >>=-eq-ok (plan_deposit_release env id t db) _ h in
    plan_targets-reservations env id ts db1 db' h1 ∙ plan_one-reservations env id t db db1 e

plan_one-deposits :
    (env : Env) (id t : ℕ) (db db' : Db)
    → plan_deposit_release env id t db ≡ ok db'
    → db'.security_deposits ≡ db.security_deposits
unfolding plan_deposit_release
plan_one-deposits env id t db db' h =
    let ((op, db1), e, h1) = >>=-eq-ok (prepare_operation env (release_params id t) db) _ h in
    ground (arith, (prepare-Prepared env (release_params id t) db op db1 e).same_deposits)

pub plan_targets-deposits :
    (env : Env) (id : ℕ) (ts : List ℕ) (db db' : Db)
    → plan_targets env id ts db ≡ ok db'
    → db'.security_deposits ≡ db.security_deposits
unfolding plan_targets
plan_targets-deposits env id [] db db' h = ground arith
plan_targets-deposits env id (t ∷ ts) db db' h =
    let (db1, e, h1) = >>=-eq-ok (plan_deposit_release env id t db) _ h in
    plan_targets-deposits env id ts db1 db' h1 ∙ plan_one-deposits env id t db db1 e

pub plan_all-reservations :
    (env : Env) (id : ℕ) (db db' : Db)
    → plan_all_deposit_releases env id db ≡ ok db'
    → db'.reservations ≡ db.reservations
unfolding plan_all_deposit_releases
plan_all-reservations env id db db' h =
    let (db1, e, h1) =
      >>=-eq-ok (plan_targets env id (deposit_targets id db.financial_operations) db) _ h in
    plan_targets-reservations env id (current_target (find_deposit id db1.security_deposits)) db1
      db' h1
    ∙ plan_targets-reservations env id (deposit_targets id db.financial_operations) db db1 e
