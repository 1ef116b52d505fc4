-- ===== src/TripGate/Soundness.antt =====
-- What an open gate of src/lib/trip-gate.ts means.
use rent_a_4_wheel.Prelude.{
  ℕ, ◌+◌, ◌*◌, ◌≤◌, ◌≡◌, refl, inl, inr, Bool, Bool-cases, true, false, Option, none, some, List,
  [], ◌∷◌, All, includes, if◌then◌else◌, is_some, nat_beq_iff, subst, nat_eq, ◌==◌, Result, ok, err,
  arith,
}
use rent_a_4_wheel.Schema.Enums.{status_eq, FinancialDisposition, disposition_eq}
use rent_a_4_wheel.Schema.Booking.{Reservation}
use rent_a_4_wheel.Schema.Database.{Db, Env, Error, claim_outstanding, find_reservation}
use rent_a_4_wheel.Jurisdiction.{is_ok, require_reservation_jurisdiction}
use rent_a_4_wheel.Finance.Projection.{snapshot, money_available, deposit_valid}
use rent_a_4_wheel.Finance.Locks.{has_safety_block, has_open_claim, assert_financial_trip_start}
use rent_a_4_wheel.TripGate.{
  license_front, license_back, selfie_with_license, CheckInRecords, ConditionReport, ReportRole,
  host_role, customer_role, Stage, GateReason, has_document, handoff_done, is_signed, report_of,
  accepted_if_any, photographed_if_any, keys_ready, pre_trip_statuses, push_unmet, financial_checks,
  check_in_checks, window_checks, all_checks, is_empty, gate_of, evaluate_trip_start_gate,
}

-- No reason is pushed only where every condition holds.
none_unmet :
    (cs : List (Bool × GateReason)) → is_empty (push_unmet cs) ≡ true → All (λ c. c.0 ≡ true) cs
unfolding push_unmet is_empty
none_unmet [] h = tt
none_unmet ((true, r) ∷ cs) h = (refl, none_unmet cs h)
none_unmet ((false, r) ∷ cs) h = cc

-- A report of the role that is accepted and has a photo.
abbrev pub IsReported : ReportRole → CheckInRecords → Type 0
IsReported role c =
    (x : ConditionReport) × (report_of role c ≡ some x)
    × (is_some x.accepted_at ≡ true)
    × (includes c.photos x.id ≡ true)

reported :
    (role : ReportRole) (c : CheckInRecords) (o : Option ConditionReport)
    → report_of role c ≡ o
    → is_some o ≡ true
    → accepted_if_any o ≡ true
    → photographed_if_any c o ≡ true
    → IsReported role c
unfolding accepted_if_any photographed_if_any
reported role c none e s a p = cc
reported role c (some x) e s a p = (x, e, a, p)

-- Everything that a trip start needs.
pub record IsReady (env : Env) (db : Db) (c : CheckInRecords) (stage : Stage) (r : Reservation)
    : Type 0 where
  pub jurisdiction : is_ok (require_reservation_jurisdiction env db r.id) ≡ true
  pub status : includes pre_trip_statuses r.status ≡ true
  pub safe : has_safety_block db r.vehicle_id ≡ false
  pub disposition : (r.financial_disposition == FinancialDisposition.opened) ≡ true
  pub money : money_available (snapshot db r) ≡ true
  pub deposit : deposit_valid env.now (snapshot db r) ≡ true
  pub license_fronts : has_document c r.customer_id license_front ≡ true
  pub license_backs : has_document c r.customer_id license_back ≡ true
  pub selfies : has_document c r.customer_id selfie_with_license ≡ true
  pub signed : is_signed c.agreement_acceptances ≡ true
  pub handoff : handoff_done c.identity_handoff ≡ true
  pub host_reported : IsReported host_role c
  pub customer_reported : IsReported customer_role c
  pub keys : keys_ready stage c ≡ true
  pub in_window : r.pickup_at ≤ env.now + c.check_in_window_hours * 60 * 60 * 1000

ready :
    (env : Env) (db : Db) (c : CheckInRecords) (stage : Stage) (r : Reservation)
    → All (λ x. x.0 ≡ true) (all_checks env db c stage r)
    → IsReady env db c stage r
unfolding all_checks financial_checks check_in_checks window_checks
ready env db c stage r
      (
        j,
        (
          s,
          (
            v,
            (
              o,
              (
                p,
                (
                  m,
                  (
                    d,
                    (lf, (lb, (se, (sg, (hd, (hr, (cr, (ha, (ca, (hp, (cp, (ks, (w, _))))))))))))),
                  ),
                ),
              ),
            ),
          ),
        ),
      ) =
    record {
      jurisdiction = j;
      status = s;
      safe = ground arith;
      disposition = o;
      money = ground arith;
      deposit = d;
      license_fronts = lf;
      license_backs = lb;
      selfies = se;
      signed = sg;
      handoff = hd;
      host_reported = reported host_role c _ refl hr ha hp;
      customer_reported = reported customer_role c _ refl cr ca cp;
      keys = ks;
      in_window = ground arith;
    }

gate_of-IsReady :
    (env : Env) (db : Db) (c : CheckInRecords) (stage : Stage) (o : Option Reservation)
    → (gate_of env db c stage o).can_start ≡ true
    → (r : Reservation) × (o ≡ some r) × IsReady env db c stage r
unfolding gate_of
gate_of-IsReady env db c stage none h = cc
gate_of-IsReady env db c stage (some r) h =
    (r, refl, ready env db c stage r (none_unmet (all_checks env db c stage r) h))

-- Where the gate lets a trip start or the keys be released, the reservation exists and every condition
-- holds: its jurisdiction is released, its status is before the trip, its vehicle has no safety block, its
-- money is open and available and its deposit valid, the three documents are clean, the agreement is
-- signed, the handoff is complete, host and customer have reported, accepted and photographed, the keys
-- are released at the start, and the check-in window is open.
pub gate-IsReady :
    (env : Env) (db : Db) (c : CheckInRecords) (id : ℕ) (stage : Stage)
    → (evaluate_trip_start_gate env db c id stage).can_start ≡ true
    → (r : Reservation) × (find_reservation id db.reservations ≡ some r) × IsReady env db c stage r
unfolding evaluate_trip_start_gate
gate-IsReady env db c id stage h =
    gate_of-IsReady env db c stage (find_reservation id db.reservations) h

found-id :
    (id : ℕ) (rs : List Reservation) (r : Reservation) → find_reservation id rs ≡ some r → r.id ≡ id
unfolding find_reservation
found-id id [] r h = cc
found-id id (x ∷ rs) r h = ground (arith, found-id id rs r, nat_beq_iff x.id id)

is_ok_lem : (m : Result Error (Unit {0})) → is_ok m ≡ true → m ≡ ok tt
unfolding is_ok
is_ok_lem (ok u) h = refl
is_ok_lem (err e) h = cc

permits :
    (env : Env) (db : Db) (r : Reservation) (id : ℕ) (c : CheckInRecords) (stage : Stage)
    → find_reservation id db.reservations ≡ some r
    → IsReady env db c stage r
    → require_reservation_jurisdiction env db id ≡ ok tt
    → assert_financial_trip_start env db id
      ≡ (if has_open_claim db id then err claim_outstanding else ok tt)
unfolding assert_financial_trip_start
permits env db r id c stage f k j = elim (Bool-cases (has_open_claim db id)) [
  | inl b ↦ rw j (rw b refl)
  | inr b ↦ rw j (rw b (rw f (rw k.safe (rw k.disposition (rw k.money (rw k.deposit refl))))))
]

-- An open gate and the assertion of the money agree: in the same state the assertion that guards the
-- transition to an active trip succeeds, or it refuses for an open claim on the reservation, which is the
-- one condition that the gate does not list.
pub gate_permits_start :
    (env : Env) (db : Db) (c : CheckInRecords) (id : ℕ) (stage : Stage)
    → (evaluate_trip_start_gate env db c id stage).can_start ≡ true
    → assert_financial_trip_start env db id
      ≡ (if has_open_claim db id then err claim_outstanding else ok tt)
gate_permits_start env db c id stage h =
    let (r, f, k) = gate-IsReady env db c id stage h in
    let j : require_reservation_jurisdiction env db id ≡ ok tt =
      subst (λ x. require_reservation_jurisdiction env db x ≡ ok tt)
        (found-id id db.reservations r f) (is_ok_lem _ k.jurisdiction) in
    permits env db r id c stage f k j
