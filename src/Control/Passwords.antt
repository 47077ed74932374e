-- ===== src/Control/Passwords.antt =====
-- crates/telepair-control/src/auth_service.rs: a change of one's password, and the access that an
-- administrator grants or takes. `verify_password` and `hash_password` stand for argon2 on
-- a blocking thread, with `none` for a task that panics.
use telepair.Base.{
  ℕ, Bool, true, false, Option, none, some, [], ◌∷◌, String, if◌then◌else◌, ltb, len,
}
use telepair.Core.Failure.{Message, Error, Result, ok, err}
use telepair.Core.Records.{User}
use telepair.Storage.{Database, Host}
use telepair.Storage.Accounts.{
  get_password_hash, change_password_and_rotate_token, set_session_enabled,
}
use telepair.Control.Audit.{AuditEntry, Outcome, failed}

-- `MIN_PASSWORD_LENGTH`, in bytes.
abbrev pub min_password_length : ℕ
min_password_length = 8

unfoldable pub validate_password : String → Result (Unit {0})
validate_password password =
    if ltb (len password) min_password_length
    then err (Error.invalid_input (Message.text "Password must be at least 8 characters."))
    else ok tt

module _ (token_sha256 : ℕ → ℕ) (verify_password : String → String → Option Bool)
    (hash_password : String → Option (Result String)) where
  -- Once the current password is known to be right.
  unfoldable pub replace_password : Host → User → String → Database → Outcome ℕ
  replace_password host user new_password db = elim (validate_password new_password) [
    | err e ↦ failed e db
    | ok u ↦ elim (hash_password new_password) [
      | none ↦ failed (Error.internal (Message.text "hash task panicked")) db
      | some (err e) ↦ failed e db
      | some (ok new_hash) ↦
          elim (change_password_and_rotate_token token_sha256 host user.id new_hash db) [
            | err e ↦ failed e db
            | ok (new_token, db') ↦ record {
              answer = ok new_token;
              database = db';
              audit = AuditEntry.password_changed user.id user.email ∷ [];
            }
          ]
    ]
  ]

  unfoldable pub change_password : Host → User → String → String → Database → Outcome ℕ
  change_password host user current_password new_password db = elim (get_password_hash user.id db) [
    | none ↦
        failed
          (Error.invalid_input (Message.text "This account does not use password authentication."))
          db
    | some hash ↦ elim (verify_password current_password hash) [
      | none ↦ failed (Error.internal (Message.text "verify task panicked")) db
      | some true ↦ replace_password host user new_password db
      | some false ↦ failed (Error.auth (Message.text "Current password is incorrect.")) db
    ]
  ]

abbrev pub access_entry : Bool → ℕ → ℕ → AuditEntry
access_entry true actor target = AuditEntry.user_enabled actor target
access_entry false actor target = AuditEntry.user_disabled actor target

unfoldable pub set_session_access : Host → (actor target : ℕ) → Bool → Database → Outcome User
set_session_access host actor target enabled db =
    elim (set_session_enabled host target enabled db) [
      | err e ↦ failed e db
      | ok (updated, db') ↦ record {
        answer = ok updated;
        database = db';
        audit = access_entry enabled actor updated.id ∷ [];
      }
    ]
