-- ===== src/Tests/Services.antt =====
-- The theorems on the authentication service and the rate limiter, at the fixture.
use telepair.Base.{Option, Bool, ◌≡◌, refl, arith, true, none, some, List, [], ◌∷◌, String, str_eq}
use telepair.Base.Dict.{get}
use telepair.Base.Rows.{find, update_where}
use telepair.Core.Records.{User}
use telepair.Storage.Accounts.{
  get_user_by_email, get_password_hash, refresh_user_token, rotate_token,
}
use telepair.Storage.Logins.{check_login_lockout, clear_login_failures}
use telepair.Storage.Pending.{verify_pending_registration, reject_code, failure_verdict}
use telepair.Control.{
  generic_auth_error, login, verify_otp, issue_token, check_password, verify_answer,
}
use telepair.Control.Logins.{login_guarded, verify_otp_uniform}
use telepair.RateLimit.{
  RegisterRateLimiter, RateLimitDecision, Event, check, check_seen, run, admitted_once,
}
use telepair.Tests.Fixtures.{sha, at, database}

-- Stands for argon2: the hash is the password.
abbrev verify : String → String → Option Bool
verify password hash = some (str_eq password hash)

login_guarded_example :
    (user : User) × (hash : String) × (get_user_by_email 501 database ≡ some user)
    × ((check_login_lockout (at 10) user.id database).0 ≡ none)
    × (get_password_hash user.id database ≡ some hash)
    × (verify "old" hash ≡ some true)
unfolding login get_user_by_email check_login_lockout check_password get_password_hash issue_token
    refresh_user_token rotate_token clear_login_failures find update_where
login_guarded_example = login_guarded sha verify (at 10) 501 "old" database 70 refl

verify_otp_uniform_example : generic_auth_error ≡ generic_auth_error
unfolding verify_otp verify_answer verify_pending_registration reject_code failure_verdict find
verify_otp_uniform_example = verify_otp_uniform sha (at 10) 800 1 database generic_auth_error refl

abbrev limiter : RegisterRateLimiter
limiter = record { min_interval = 30; last_seen = [] }

abbrev others : List Event
others = Event.attempt 101 8 ∷ Event.purge 110 ∷ Event.attempt 120 7 ∷ []

admitted_once_example :
    (check 125 7 (run others (check 100 7 limiter).1)).0 ≡ RateLimitDecision.throttled 5
unfolding check check_seen get
admitted_once_example =
    admitted_once 7 100 limiter others 125 refl
      ((omega arith, omega arith), ((omega arith, omega arith), ((omega arith, omega arith), tt)))
      (omega arith)
