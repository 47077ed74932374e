-- ===== src/Storage/Logins.antt =====
-- crates/telepair-core/src/storage/sqlite.rs: the password-login throttle on a row of `users`.
pub mod Strikes
use telepair.Base.{
  ℕ, ◌+◌, ◌-◌, Bool, true, false, Option, none, some, if◌then◌else◌, ◌==◌, ltb, leb,
}
use telepair.Base.Rows.{find, update_where}
use telepair.Core.Failure.{Message, Error, Result, ok, err}
use telepair.Core.Records.{LoginFailureOutcome}
use telepair.Storage.Db.{Database, Host, UserRow, user_id_is}
use telepair.Storage.Accounts.{user_not_found}

abbrev pub cleared : UserRow → UserRow
cleared u = record u { login_failed_count = 0; login_locked_until = none }

unfoldable pub clear_login_failures : ℕ → Database → Database
clear_login_failures id db = record db { users = update_where (user_id_is id) cleared db.users }

abbrev lock_of : Option UserRow → Option ℕ
lock_of none = none
lock_of (some u) = u.login_locked_until

-- A lock that has run out is cleared here, so that the next failure starts afresh.
unfoldable pub check_login_lockout : Host → ℕ → Database → Option ℕ × Database
check_login_lockout host id db = elim (lock_of (find (user_id_is id) db.users)) [
  | none ↦ (none, db)
  | some until ↦ if ltb host.now until then (some until, db) else (none, clear_login_failures id db)
]

-- The two CASE expressions of the UPDATE, by the state of the lock.
unfoldable pub struck : ℕ → ℕ → UserRow → Option ℕ → UserRow
struck now lock_until u none =
    if leb 5 (u.login_failed_count + 1)
    then record u {
      login_failed_count = u.login_failed_count + 1;
      login_locked_until = some lock_until;
    }
    else record u { login_failed_count = u.login_failed_count + 1; login_locked_until = none }
struck now lock_until u (some until) =
    if ltb now until then u else record u { login_failed_count = 1; login_locked_until = none }

abbrev pub strike : ℕ → ℕ → UserRow → UserRow
strike now lock_until u = struck now lock_until u u.login_locked_until

-- The outcome, from the columns that the UPDATE returns.
unfoldable pub login_outcome : ℕ → ℕ → Option ℕ → LoginFailureOutcome
login_outcome now count none = LoginFailureOutcome.recorded (5 - count)
login_outcome now count (some until) =
    if ltb now until
    then LoginFailureOutcome.locked until
    else LoginFailureOutcome.recorded (5 - count)

unfoldable pub record_login_failure :
    Host → ℕ → ℕ → Database → Result (LoginFailureOutcome × Database)
record_login_failure host id lockout_duration db =
    let users =
      update_where (user_id_is id) (strike host.now (host.now + lockout_duration)) db.users in
    (elim (find (user_id_is id) users) [
      | none ↦ err (Error.auth (user_not_found id))
      | some u ↦ ok (
        login_outcome host.now u.login_failed_count u.login_locked_until,
        record db { users = users },
      )
    ])
