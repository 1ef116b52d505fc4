-- ===== src/Scenarios/SignedIn.antt =====
-- Mobile and browser sessions at concrete accounts.
use rent_a_4_wheel.Prelude.{
  ℕ, zero, suc, ◌+◌, ◌*◌, ◌≤◌, ◌<◌, ◌≡◌, ◌≢◌, refl, true, false, none, some, List, [], ◌∷◌, ◌++◌,
  count_by, Result, ok, err, arith,
}
use rent_a_4_wheel.Sessions.{Role, User, find_user}
use rent_a_4_wheel.Sessions.Mobile.{
  MobileSession, MobileDb, IssuedCredentials, Actor, MobileError, unauthorized, find_session,
  find_access, is_body,
}
use rent_a_4_wheel.Sessions.Mobile.Issue.{MobileDevice, is_live, issue_mobile_session}
use rent_a_4_wheel.Sessions.Mobile.Refresh.{refresh_mobile_credential}
use rent_a_4_wheel.Sessions.Mobile.Access.{authenticate_mobile}
use rent_a_4_wheel.Sessions.Mobile.Admission.{session_of}
use rent_a_4_wheel.Sessions.Mobile.Rotation.{refresh_once}
use rent_a_4_wheel.Sessions.Mobile.DeviceLimit.{at_most_twenty_devices}
use rent_a_4_wheel.Sessions.Mobile.RoundTrip.{bearer_scheme, signed_in_authenticates}
use rent_a_4_wheel.Sessions.Devices.{
  DeviceDb, DeviceSession, create_device_session, validate_device_session, rotate_device_session,
}
use rent_a_4_wheel.Sessions.Devices.Endings.{Step, Steps, Ends, IsKeyed, ended_never_serves}
use rent_a_4_wheel.Scenarios.World.{value}

-- A hash for the tests: the characters as digits.
abbrev digits : List ℕ → ℕ
digits [] = 1
digits (c ∷ cs) = c + 256 * digits cs

abbrev copies : ℕ → ℕ → List ℕ
copies zero c = []
copies (suc n) c = c ∷ copies n c

abbrev driver : User
driver = record { id = 5; role = Role.customer; is_active = true }

abbrev device : ℕ → MobileDevice
device c = record { device_id = 3; access_body = copies 43 c; refresh_body = copies 43 (c + 1) }

abbrev nobody : MobileDb
nobody = record {
  users = driver ∷ [];
  sessions = [];
  credentials = [];
  audit_log = [];
  next_id = 1;
}

abbrev no_credentials : IssuedCredentials
no_credentials = record {
  access_token = [];
  refresh_token = [];
  access_expires_at = 0;
  refresh_expires_at = 0;
  session_id = 0;
}

abbrev signed : IssuedCredentials × MobileDb
signed = value (issue_mobile_session digits 1000 5 (device b'a') nobody) (no_credentials, nobody)

signs_in : issue_mobile_session digits 1000 5 (device b'a') nobody ≡ ok (signed.0, signed.1)
unfolding issue_mobile_session
signs_in = refl

at_most_twenty_devices_example : count_by (is_live 5 1000) signed.1.sessions ≤ 20
at_most_twenty_devices_example =
    at_most_twenty_devices digits 1000 5 (device b'a') nobody signed.1 signed.0 signs_in

body_valid : is_body (device b'a').access_body ≡ true
unfolding is_body
body_valid = refl

no_session : find_session 1 nobody.sessions ≡ none
unfolding find_session
no_session = refl

no_token : find_access (digits signed.0.access_token) nobody.credentials ≡ none
unfolding find_access
no_token = refl

in_time : 200000 < signed.0.access_expires_at
unfolding issue_mobile_session rent_a_4_wheel.Sessions.Mobile.Issue.issue
in_time = omega arith

session_named : signed.0.session_id ≡ 1
unfolding issue_mobile_session rent_a_4_wheel.Sessions.Mobile.Issue.issue
    rent_a_4_wheel.Sessions.Mobile.Issue.make_room rent_a_4_wheel.Sessions.Mobile.Issue.audit_each
    rent_a_4_wheel.Sessions.Mobile.Issue.excess rent_a_4_wheel.Sessions.Mobile.Issue.sign_out_device
session_named = refl

signed_in_authenticates_example :
    (touched : MobileDb) × (authenticate_mobile digits 200000
        (bearer_scheme ++ signed.0.access_token)
        true
        signed.1
        signed.1
      ≡ ok
          (record { user_id = 5; session_id = signed.0.session_id; role = Role.customer }, touched))
    × (true ≡ false → touched ≡ signed.1)
    × (true ≡ true
        → (x : MobileSession) × (find_session signed.0.session_id signed.1.sessions ≡ some x)
          × (find_session signed.0.session_id touched.sessions
              ≡ some (record x { last_used_at = 200000 })))
unfolding find_user
signed_in_authenticates_example =
    signed_in_authenticates digits 1000 5 (device b'a') nobody signed.1 signed.0 200000 true
      signs_in body_valid no_session no_token in_time

abbrev exchanged : Result MobileError IssuedCredentials × MobileDb
exchanged =
    refresh_mobile_credential digits 100000 signed.0.refresh_token (copies 43 b'c') (copies 43 b'd')
      signed.1

abbrev exchanged_credentials : IssuedCredentials
exchanged_credentials = value exchanged.0 no_credentials

exchanges :
    refresh_mobile_credential digits 100000 signed.0.refresh_token
      (copies 43 b'c')
      (copies 43 b'd')
      signed.1
    ≡ (ok exchanged_credentials, exchanged.1)
unfolding find_session is_live issue_mobile_session refresh_mobile_credential
    rent_a_4_wheel.Sessions.Mobile.Issue.issue rent_a_4_wheel.Sessions.Mobile.Issue.new_credential
    rent_a_4_wheel.Sessions.Mobile.Issue.new_session
    rent_a_4_wheel.Sessions.Mobile.Refresh.deny_refresh
    rent_a_4_wheel.Sessions.Mobile.Refresh.is_reused
    rent_a_4_wheel.Sessions.Mobile.Refresh.refresh_credential
    rent_a_4_wheel.Sessions.Mobile.Refresh.refresh_row
    rent_a_4_wheel.Sessions.Mobile.Refresh.refresh_session
    rent_a_4_wheel.Sessions.Mobile.Refresh.rotate rent_a_4_wheel.Sessions.Mobile.audit
    rent_a_4_wheel.Sessions.Mobile.find_refresh rent_a_4_wheel.Sessions.Mobile.is_eligible
    rent_a_4_wheel.Sessions.Mobile.native_role rent_a_4_wheel.Sessions.Mobile.new_token
    rent_a_4_wheel.Sessions.Mobile.prefix rent_a_4_wheel.Sessions.Mobile.revoked
    rent_a_4_wheel.Sessions.Mobile.strip rent_a_4_wheel.Sessions.Mobile.valid_token
    rent_a_4_wheel.Sessions.Mobile.Issue.insert_new_session
    rent_a_4_wheel.Sessions.Mobile.Issue.make_room rent_a_4_wheel.Sessions.Mobile.Issue.audit_each
    rent_a_4_wheel.Sessions.Mobile.Issue.excess rent_a_4_wheel.Sessions.Mobile.Issue.sign_out_device
    rent_a_4_wheel.Sessions.Mobile.Issue.revoke_each
exchanges = refl

-- The thief's exchange of the same token, and a use of the owner's new access token after it.
refresh_once_example :
    ((refresh_mobile_credential digits 150000 signed.0.refresh_token
        (copies 43 b'e')
        (copies 43 b'f')
        exchanged.1).0
      ≡ err unauthorized)
    × (session_of (
          authenticate_mobile digits 160000
            (bearer_scheme ++ exchanged_credentials.access_token)
            true
            (refresh_mobile_credential digits 150000 signed.0.refresh_token
              (copies 43 b'e')
              (copies 43 b'f')
              exchanged.1).1
            exchanged.1)
        ≢ some exchanged_credentials.session_id)
refresh_once_example =
    refresh_once digits 100000 150000 160000 signed.0.refresh_token (copies 43 b'c')
      (copies 43 b'd') (copies 43 b'e') (copies 43 b'f')
      (bearer_scheme ++ exchanged_credentials.access_token) true signed.1 exchanged.1 exchanged.1
      exchanged_credentials exchanges

abbrev browser_row : DeviceSession
browser_row = record {
  id = 2;
  user_id = 5;
  expires = 604801000;
  created_at = 1000;
  last_seen_at = 1000;
  revoked_at = none;
  rotation = 0;
  is_mobile = false;
}

abbrev browsers : DeviceDb
browsers = record { users = driver ∷ []; sessions = browser_row ∷ []; audit_log = []; next_id = 3 }

abbrev turned_away : ℕ × DeviceDb
turned_away = value (rotate_device_session 2000 5 2 0 (copies 6 b'1') true browsers) (0, browsers)

rotates_browser :
    rotate_device_session 2000 5 2 0 (copies 6 b'1') true browsers
    ≡ ok (turned_away.0, turned_away.1)
unfolding rotate_device_session
rotates_browser = refl

abbrev joined : (ℕ × ℕ) × DeviceDb
joined = value (create_device_session 3000 5 true turned_away.1) ((0, 0), browsers)

joins : create_device_session 3000 5 true turned_away.1 ≡ ok (joined.0, joined.1)
unfolding create_device_session rotate_device_session
joins = refl

browsers-IsKeyed : IsKeyed 2 browsers
browsers-IsKeyed = record { unique = omega arith; given = omega arith }

ended_never_serves_example : (validate_device_session 4000 5 2 0 joined.1).0 ≡ none
ended_never_serves_example =
    ended_never_serves 5 2 0 4000 browsers turned_away.1 joined.1 browsers-IsKeyed
      (Ends.rotated_away 2000 (copies 6 b'1') turned_away.0 rotates_browser)
      (Steps.next Steps.here (Step.creates 3000 5 true joins))
