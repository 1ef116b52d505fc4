-- ===== src/Sessions.antt =====
-- Who is signed in: the accounts, src/lib/rbac.ts, and the sessions of browsers and of the mobile clients.
pub mod Mobile
pub mod Devices
use rent_a_4_wheel.Prelude.{
  ℕ, ◌≡◌, ◌↔◌, Bool, true, false, Option, none, some, List, [], ◌∷◌, find, includes, nat_beq,
  nat_eq, arith, Eq, ◌==◌,
}

-- Enum Role.
pub data Role : Type 0 where
  customer host host_employee staff admin super_admin : Role
  finance_agent support_agent claims_agent : Role

abbrev pub role_rank : Role → ℕ
role_rank Role.customer = 0
role_rank Role.host = 1
role_rank Role.host_employee = 2
role_rank Role.staff = 3
role_rank Role.admin = 4
role_rank Role.super_admin = 5
role_rank Role.finance_agent = 6
role_rank Role.support_agent = 7
role_rank Role.claims_agent = 8

abbrev pub role_beq : Role → Role → Bool
role_beq a b = nat_beq (role_rank a) (role_rank b)

pub role_beq_iff : (a b : Role) → (role_beq a b ≡ true) ↔ (a ≡ b)
role_beq_iff a b = ground arith

instance abbrev pub role_eq : Eq Role
role_eq = record { beq = role_beq; beq_iff = role_beq_iff }

-- The columns of User that the sessions read.
pub record User : Type 0 where
  pub id : ℕ
  pub role : Role
  pub is_active : Bool

unfoldable pub find_user : ℕ → List User → Option User
find_user id us = find (λ u. u.id == id) us

-- `includes(role as AppRole)`: a role that is missing is in no list.
role_in : List Role → Option Role → Bool
role_in roles none = false
role_in roles (some r) = includes roles r

-- The three lists of src/lib/rbac.ts.
unfoldable pub can_access_admin : Option Role → Bool
unfolding role_in
can_access_admin r = role_in (Role.admin ∷ Role.super_admin ∷ Role.staff ∷ []) r

unfoldable pub can_manage_settings : Option Role → Bool
unfolding role_in
can_manage_settings r = role_in (Role.admin ∷ Role.super_admin ∷ []) r

unfoldable pub can_perform_emergency_override : Option Role → Bool
unfolding role_in
can_perform_emergency_override r = role_in (Role.super_admin ∷ []) r
