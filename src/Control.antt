-- ===== src/Control.antt =====
-- crates/telepair-control/src/auth_service.rs: what the public endpoints make of the store. A call
-- returns its answer, the database and the audit rows it adds. The e-mail address is the one that
-- the call has put in lower case; `verify_password` stands for argon2 on a
-- blocking thread, with `none` for a task that panics; instants are in seconds.
pub mod Audit
pub mod Logins
pub mod Passwords
pub mod Sessions
pub mod Invites
pub mod Listings
pub mod Redeem
pub mod UserTargets
pub mod Recordings
use telepair.Base.{
  ℕ, ◌+◌, ◌-◌, ◌*◌, Bool, true, false, Option, none, some, List, [], ◌∷◌, String, if◌then◌else◌,
  ltb, is_some,
}
use telepair.Core.Failure.{Message, Error, Result, ok, err}
use telepair.Core.Records.{User, PendingVerifyResult, LoginFailureOutcome}
use telepair.Storage.{Database, Host}
use telepair.Control.Audit.{AuditEntry, Outcome}
use telepair.Storage.Accounts.{get_user_by_email, get_password_hash, refresh_user_token}
use telepair.Storage.Logins.{check_login_lockout, clear_login_failures, record_login_failure}
use telepair.Storage.Pending.{
  latest_pending_registration_at, upsert_pending_registration, delete_pending_registration,
  verify_pending_registration,
}

abbrev pub generic_auth_error : Error
generic_auth_error = Error.auth (Message.text "invalid email or code")

abbrev pub verify_panicked : Error
verify_panicked = Error.internal (Message.text "verify task panicked")

abbrev pub lockout_seconds : ℕ
lockout_seconds = 15 * 60

-- The audit columns of a recorded failure; a failure to record leaves them empty.
abbrev pub strike_audit : ℕ → ℕ → LoginFailureOutcome → AuditEntry
strike_audit uid email (LoginFailureOutcome.recorded remaining) =
    AuditEntry.login_failed (some uid) email "bad_password" (some remaining) none
strike_audit uid email (LoginFailureOutcome.locked until) =
    AuditEntry.login_failed (some uid) email "bad_password" (some 0) (some until)

unfoldable pub record_bad_password : Host → ℕ → ℕ → Database → Outcome ℕ
record_bad_password host uid email db = elim (record_login_failure host uid lockout_seconds db) [
  | ok (outcome, db') ↦ record {
    answer = err generic_auth_error;
    database = db';
    audit = strike_audit uid email outcome ∷ [];
  }
  | err e ↦ record {
    answer = err generic_auth_error;
    database = db;
    audit = AuditEntry.login_failed (some uid) email "bad_password" none none ∷ [];
  }
]

-- The answer to a verdict of the store.
unfoldable pub verify_answer : ℕ → PendingVerifyResult → Result ℕ × AuditEntry
verify_answer email (PendingVerifyResult.success user raw_token) =
    (ok raw_token, AuditEntry.register_completed user.id email)
verify_answer email (PendingVerifyResult.failure remaining) =
    (err generic_auth_error, AuditEntry.verify_failed email "bad_code" (some remaining))
verify_answer email PendingVerifyResult.locked =
    (err generic_auth_error, AuditEntry.verify_failed email "locked" none)
verify_answer email PendingVerifyResult.expired =
    (err generic_auth_error, AuditEntry.verify_failed email "expired_or_unknown" none)

abbrev pub is_conflict : Error → Bool
is_conflict (Error.conflict m) = true
is_conflict _ = false

module _ (token_sha256 : ℕ → ℕ) where
  -- The end of a login with the right password.
  unfoldable pub issue_token : Host → ℕ → Database → Outcome ℕ
  issue_token host uid db =
      let cleared = clear_login_failures uid db in
      elim (refresh_user_token token_sha256 host uid cleared) [
        | ok (raw, db') ↦ record { answer = ok raw; database = db'; audit = [] }
        | err e ↦ record { answer = err e; database = cleared; audit = [] }
      ]

  unfoldable pub verify_otp : Host → ℕ → ℕ → Database → Outcome ℕ
  verify_otp host email code db =
      elim (verify_pending_registration token_sha256 host email code db) [
        | ok (verdict, db') ↦
            let (answer, entry) = verify_answer email verdict in
            record { answer = answer; database = db'; audit = entry ∷ [] }
        | err e ↦
            if is_conflict e
            then record {
              answer = err generic_auth_error;
              database = db;
              audit = AuditEntry.verify_failed email "display_name_conflict" none ∷ [];
            }
            else record { answer = err e; database = db; audit = [] }
      ]

  module _ (verify_password : String → String → Option Bool) where
    -- A login once the account is known not to be locked.
    unfoldable pub check_password : Host → ℕ → ℕ → String → Database → Outcome ℕ
    check_password host uid email password db = elim (get_password_hash uid db) [
      | none ↦ record_bad_password host uid email db
      | some hash ↦ elim (verify_password password hash) [
        | none ↦ record { answer = err verify_panicked; database = db; audit = [] }
        | some right ↦
            if right then issue_token host uid db else record_bad_password host uid email db
      ]
    ]

    unfoldable pub login : Host → ℕ → String → Database → Outcome ℕ
    login host email password db = elim (get_user_by_email email db) [
      | none ↦ record {
        answer = err generic_auth_error;
        database = db;
        audit = AuditEntry.login_failed none email "unknown_email" none none ∷ [];
      }
      | some user ↦
          let (lock, db') = check_login_lockout host user.id db in
          elim lock [
            | some until ↦ record {
              answer = err generic_auth_error;
              database = db';
              audit = AuditEntry.login_failed (some user.id) email "locked" none (some until) ∷ [];
            }
            | none ↦ check_password host user.id email password db'
          ]
    ]
