-- ===== src/Control/Logins.antt =====
-- What a login or a verification tells its caller, and what a login that succeeds has shown.
use telepair.Base.{
  Option, ℕ, Bool, true, ◌≡◌, refl, ◌⊎◌, inl, inr, none, some, List, [], ◌∷◌, String, arith,
  Option-cases, ◌∙◌, sym,
}
use telepair.Base.Rows.{find, update_where}
use telepair.Core.Failure.{Fault, Error, ok, err, is_unique_violation}
use telepair.Core.Records.{User}
use telepair.Storage.{Database, Host, UserRow, user_id_is, insert_user_row}
use telepair.Storage.Accounts.{get_user_by_email, get_password_hash, password_of, or_conflict}
use telepair.Storage.Logins.{check_login_lockout, clear_login_failures, cleared}
use telepair.Storage.Pending.{verify_pending_registration, materialize, reject_code}
use telepair.Control.{
  generic_auth_error, record_bad_password, check_password, login, verify_otp, verify_answer,
  verify_panicked,
}

record_bad_password_answer :
    (host : Host) (uid email : ℕ) (db : Database)
    → (record_bad_password host uid email db).answer ≡ err generic_auth_error
unfolding record_bad_password
record_bad_password_answer host uid email db = ground arith

module _ (token_sha256 : ℕ → ℕ) where
  -- A verification of a one-time code that fails gives the same error whatever the reason.
  pub verify_otp_uniform :
      (host : Host) (email code : ℕ) (db : Database) (e : Error)
      → (verify_otp token_sha256 host email code db).answer ≡ err e
      → e ≡ generic_auth_error
  unfolding is_unique_violation verify_otp verify_answer verify_pending_registration materialize
      or_conflict insert_user_row reject_code
  verify_otp_uniform host email code db e h = ground arith

kept_hash :
    (id : ℕ) (us : List UserRow)
    → password_of (find (user_id_is id) (update_where (user_id_is id) cleared us))
      ≡ password_of (find (user_id_is id) us)
unfolding find update_where
kept_hash id [] = refl
kept_hash id (u ∷ us) = ground (arith, kept_hash id us)

password-lockout :
    (host : Host) (id : ℕ) (db : Database)
    → get_password_hash id (check_login_lockout host id db).1 ≡ get_password_hash id db
unfolding get_password_hash check_login_lockout clear_login_failures
password-lockout host id db = ground (arith, kept_hash id db.users)

module _ (token_sha256 : ℕ → ℕ) (verify_password : String → String → Option Bool) (host : Host)
    (email : ℕ) (password : String) (db : Database) where
  -- What the caller may be told apart from the one error: the fresh token is taken, or the task that
  -- verified the password panicked.
  abbrev pub Excusable : Error → Type 0
  Excusable e =
      (e ≡ generic_auth_error)
      ⊎ (e ≡ Error.storage Fault.unique_violation)
      ⊎ ((hash : String) × (verify_password password hash ≡ none) × (e ≡ verify_panicked))

  check_password_right :
      (uid raw : ℕ) (after : Database)
      → (check_password token_sha256 verify_password host uid email password after).answer ≡ ok raw
      → (hash : String) × (get_password_hash uid after ≡ some hash)
        × (verify_password password hash ≡ some true)
  unfolding check_password
  check_password_right uid raw after h = elim (Option-cases (get_password_hash uid after)) [
    | inl absent ↦ ground (arith, record_bad_password_answer host uid email after)
    | inr (hash, stored) ↦
        (hash, stored, ground (arith, record_bad_password_answer host uid email after))
  ]

  -- A login succeeds only for an account of that address that is not locked, with a password that
  -- passes against the hash stored for it.
  pub login_guarded :
      (raw : ℕ)
      → (login token_sha256 verify_password host email password db).answer ≡ ok raw
      → (user : User) × (hash : String) × (get_user_by_email email db ≡ some user)
        × ((check_login_lockout host user.id db).0 ≡ none)
        × (get_password_hash user.id db ≡ some hash)
        × (verify_password password hash ≡ some true)
  unfolding login
  login_guarded raw h = elim (Option-cases (get_user_by_email email db)) [
    | inl unknown ↦ ground arith
    | inr (user, found) ↦
        let unlocked : (check_login_lockout host user.id db).0 ≡ none = ground arith in
        let (hash, stored, right) =
          check_password_right user.id raw (check_login_lockout host user.id db).1 (ground arith) in
        (user, hash, found, unlocked, sym (password-lockout host user.id db) ∙ stored, right)
  ]
