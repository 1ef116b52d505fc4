-- ===== src/Cases/Access.antt =====
-- Who may see a case and who may decide it: src/lib/collaboration-access.ts, marketplaceActor and
-- marketplaceHost of src/lib/marketplace.ts, and src/lib/case-decision-authority.ts.
use rent_a_4_wheel.Prelude.{
  ℕ, Bool, true, false, not, ◌&&◌, ◌||◌, Option, none, some, List, [], ◌∷◌, any, find, select, map,
  includes, if◌then◌else◌, is_some, nat_eq, option_eq, ◌==◌, Result, ok, err, guard, or_throw,
  ◌>>=◌, ◌>>◌,
}
use rent_a_4_wheel.Sessions.{Role, role_eq}
use rent_a_4_wheel.Cases.{Kind}
use rent_a_4_wheel.Cases.Rows.{
  PartyRole, party_eq, Action, EventAction, ServiceCase, Account, CaseReservation, CaseVehicle,
  HostProfile, Membership, CaseDb, CaseError, not_found, sign_in, not_independent, forbidden,
}

-- `operators[kind]`.
unfoldable pub is_operator : Role → Kind → Bool
is_operator r Kind.claim = includes (Role.claims_agent ∷ Role.super_admin ∷ []) r
is_operator r Kind.dispute = includes (Role.claims_agent ∷ Role.super_admin ∷ []) r
is_operator r Kind.incident =
    includes (Role.support_agent ∷ Role.claims_agent ∷ Role.super_admin ∷ []) r
is_operator r Kind.ticket = includes (Role.support_agent ∷ Role.admin ∷ Role.super_admin ∷ []) r

unfoldable pub find_account : ℕ → List Account → Option Account
find_account id us = find (λ u. u.id == id) us

-- `marketplaceActor`.
unfoldable pub marketplace_actor : ℕ → CaseDb → Result CaseError Account
marketplace_actor user_id db = do
  user ← or_throw (find_account user_id db.accounts) sign_in
  guard user.is_active sign_in
  ok user

unfoldable pub find_reservation : ℕ → List CaseReservation → Option CaseReservation
find_reservation id rs = find (λ r. r.id == id) rs

unfoldable pub find_vehicle : ℕ → List CaseVehicle → Option CaseVehicle
find_vehicle id vs = find (λ v. v.id == id) vs

unfoldable pub find_host : ℕ → List HostProfile → Option HostProfile
find_host id hs = find (λ h. h.id == id) hs

employer : Option Membership → List HostProfile → Option HostProfile
unfolding find_host
employer none hs = none
employer (some m) hs = find_host m.host_id hs

own_or_employer : Option HostProfile → Option HostProfile → Option HostProfile
own_or_employer (some h) other = some h
own_or_employer none other = other

-- The host of `marketplaceHost`: one's own profile, else that of an active employment.
host_of : ℕ → CaseDb → Option HostProfile
unfolding employer own_or_employer
host_of user_id db =
    own_or_employer (find (λ h. h.user_id == user_id) db.hosts)
      (employer (find (λ m. m.user_id == user_id) db.employments) db.hosts)

-- `marketplaceHost`: a host that is missing or suspended is refused.
unfoldable pub marketplace_host : ℕ → CaseDb → Result CaseError HostProfile
unfolding host_of
marketplace_host user_id db = do
  user ← marketplace_actor user_id db
  guard (includes (Role.host ∷ Role.host_employee ∷ []) user.role) forbidden
  h ← or_throw (host_of user_id db) forbidden
  guard (not h.is_suspended) forbidden
  ok h

is_hosted_by : ℕ → Option CaseVehicle → Bool
is_hosted_by host_id none = false
is_hosted_by host_id (some v) = v.host_id == some host_id

vehicle_of : Option ℕ → List CaseVehicle → Option CaseVehicle
unfolding find_vehicle
vehicle_of none vs = none
vehicle_of (some id) vs = find_vehicle id vs

-- What the case is about: its customer and its vehicle.
pub record Scope : Type 0 where
  pub customer_id : ℕ
  pub vehicle_id : Option ℕ

host_party : Account → Option CaseVehicle → CaseDb → Result CaseError (Account × PartyRole)
unfolding is_hosted_by
host_party actor v db = do
  h ← marketplace_host actor.id db
  guard (is_hosted_by h.id v) not_found
  ok (actor, PartyRole.host)

-- `participant`: the first role that fits.
unfoldable pub participant : ℕ → Scope → Kind → CaseDb → Result CaseError (Account × PartyRole)
unfolding host_party vehicle_of
participant user_id scope kind db = do
  actor ← marketplace_actor user_id db
  if scope.customer_id == user_id
      then ok (actor, PartyRole.customer)
      else if is_operator actor.role kind
      then ok (actor, PartyRole.operator)
      else if is_some scope.vehicle_id && includes (Role.host ∷ Role.host_employee ∷ []) actor.role
      then host_party actor (vehicle_of scope.vehicle_id db.vehicles) db
      else err not_found

unfoldable pub find_case : ℕ → List ServiceCase → Option ServiceCase
find_case id cs = find (λ c. c.id == id) cs

-- The scope comes from the reservation as it is now, not from the case.
pub scope_of : ServiceCase → Option ℕ → CaseDb → Result CaseError Scope
unfolding find_reservation
scope_of c none db = ok (record { customer_id = c.opened_by_id; vehicle_id = c.vehicle_id })
scope_of c (some id) db = do
  r ← or_throw (find_reservation id db.reservations) not_found
  ok (record { customer_id = r.customer_id; vehicle_id = some r.vehicle_id })

-- `caseAccess`, of the row.
unfoldable pub case_access : ℕ → ServiceCase → CaseDb → Result CaseError (Account × PartyRole)
unfolding scope_of
case_access user_id c db = do
  scope ← scope_of c c.reservation_id db
  participant user_id scope c.kind db

-- The cases of the reservation, or this one.
related : ServiceCase → Option ℕ → List ServiceCase → List ℕ
related c none cs = c.id ∷ []
related c (some id) cs = map (λ d. d.id) (select (λ d. d.reservation_id == some id) cs)

takes_part : EventAction → Bool
takes_part EventAction.opened = true
takes_part (EventAction.replied PartyRole.customer) = true
takes_part (EventAction.replied PartyRole.host) = true
takes_part (EventAction.commanded Action.appeal) = true
takes_part _ = false

is_user_of : ℕ → Option HostProfile → Bool
is_user_of user_id none = false
is_user_of user_id (some h) = h.user_id == user_id

host_by : Option ℕ → List HostProfile → Option HostProfile
unfolding find_host
host_by none hs = none
host_by (some id) hs = find_host id hs

-- The host, the owner, the owner's host, or a current or former affiliate of the host.
vehicle_interest : Account → Option CaseVehicle → CaseDb → Bool
unfolding is_user_of host_by
vehicle_interest actor none db = false
vehicle_interest actor (some v) db =
    is_user_of actor.id (host_by v.host_id db.hosts)
    || is_user_of actor.id (host_by v.owner_host_id db.hosts)
    || v.owner_email == some actor.email
    || any (λ m. v.host_id == some m.host_id && m.user_id == actor.id) db.affiliations

-- The customer of the reservation, or the author of a condition report of it.
reservation_interest : Account → Option ℕ → CaseDb → Bool
reservation_interest actor none db = false
reservation_interest actor (some id) db =
    any (λ r. r.id == id && r.customer_id == actor.id) db.reservations
    || any (λ p. p.reservation_id == id && p.submitted_by_id == actor.id) db.reports

-- Evidence, a part in the events, or the opening of a related case.
case_interest : Account → List ℕ → CaseDb → Bool
unfolding takes_part
case_interest actor ids db =
    any (λ f. includes ids f.case_id && f.uploaded_by_id == actor.id) db.files
    || any (λ e. includes ids e.case_id && e.actor_id == actor.id && takes_part e.action) db.events
    || any (λ c. includes ids c.id && c.opened_by_id == actor.id) db.cases

-- What bars an operator from deciding the case.
unfoldable pub has_interest : Account → ServiceCase → CaseDb → Bool
unfolding related vehicle_interest reservation_interest case_interest vehicle_of
has_interest actor c db =
    case_interest actor (related c c.reservation_id db.cases) db
    || reservation_interest actor c.reservation_id db
    || vehicle_interest actor (vehicle_of c.vehicle_id db.vehicles) db

-- `findUniqueOrThrow` of the reservation and of the vehicle, where the case has one.
unfoldable pub has_rows : ServiceCase → CaseDb → Bool
has_rows c db =
    (not (is_some c.reservation_id) || any (λ r. c.reservation_id == some r.id) db.reservations)
    && (not (is_some c.vehicle_id) || any (λ v. c.vehicle_id == some v.id) db.vehicles)

unfoldable pub independent_case_actor : ServiceCase → ℕ → CaseDb → Result CaseError Account
independent_case_actor c user_id db = do
  actor ← marketplace_actor user_id db
  guard (is_operator actor.role c.kind) not_independent
  guard (has_rows c db) not_found
  guard (not (has_interest actor c db)) not_independent
  ok actor
