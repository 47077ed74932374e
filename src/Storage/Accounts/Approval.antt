-- ===== src/Storage/Accounts/Approval.antt =====
-- No account is enabled before it is approved: the methods that change one row of `users`.
use telepair.Base.{ℕ, Bool, true, false, ◌≡◌, arith, String, Option, none, some, ◌+◌}
use telepair.Base.Lists.{All}
use telepair.Base.Rows.{All-update_where}
use telepair.Core.Failure.{ok}
use telepair.Core.Status.{ApprovalState}
use telepair.Core.Records.{User, LoginFailureOutcome}
use telepair.Storage.Db.{Database, Host, UserRow, user_id_is}
use telepair.Storage.Accounts.{
  with_enabled, set_session_enabled, update_password_hash, with_password,
}
use telepair.Storage.Logins.{
  cleared, clear_login_failures, check_login_lockout, struck, strike, record_login_failure,
}

-- An enabled account is approved.
abbrev pub Approved : UserRow → Type 0
Approved u = u.session_enabled ≡ true → u.approval_state ≡ ApprovalState.approved

abbrev pub AllApproved : Database → Type 0
AllApproved db = All Approved db.users

with_enabled-Approved :
    (enabled : Bool) (now : ℕ) (u : UserRow) → Approved u → Approved (with_enabled enabled now u)
with_enabled-Approved true now u h = λ e. ground arith
with_enabled-Approved false now u h = λ e. ground arith

pub set_session_enabled-AllApproved :
    (host : Host) (id : ℕ) (enabled : Bool) (db : Database) {u : User} {db' : Database}
    → AllApproved db
    → set_session_enabled host id enabled db ≡ ok (u, db')
    → AllApproved db'
unfolding set_session_enabled
set_session_enabled-AllApproved host id enabled db h e = ground (
  arith,
  All-update_where Approved (user_id_is id) (with_enabled enabled host.now) db.users
      (λ u _. with_enabled-Approved enabled host.now u) h,
)

pub hash-AllApproved :
    (host : Host) (id : ℕ) (hash : String) (db : Database) {db' : Database}
    → AllApproved db
    → update_password_hash host id hash db ≡ ok (tt, db')
    → AllApproved db'
unfolding update_password_hash
hash-AllApproved host id hash db a h = ground (
  arith,
  All-update_where Approved (user_id_is id) (with_password hash host.now) db.users (λ u _ p. p) a,
)

pub clear-AllApproved :
    (id : ℕ) (db : Database) → AllApproved db → AllApproved (clear_login_failures id db)
unfolding clear_login_failures
clear-AllApproved id db a =
    All-update_where Approved (user_id_is id) cleared db.users (λ u _ p. p) a

pub lockout-AllApproved :
    (host : Host) (id : ℕ) (db : Database)
    → AllApproved db
    → AllApproved (check_login_lockout host id db).1
unfolding check_login_lockout
lockout-AllApproved host id db a = ground (arith, clear-AllApproved id db a)

struck-Approved :
    (now lock_until : ℕ) (u : UserRow) (lock : Option ℕ)
    → Approved u
    → Approved (struck now lock_until u lock)
unfolding struck
struck-Approved now lock_until u none p = λ e. ground arith
struck-Approved now lock_until u (some until) p = λ e. ground arith

pub failure-AllApproved :
    (host : Host) (id duration : ℕ) (db : Database) {out : LoginFailureOutcome} {db' : Database}
    → AllApproved db
    → record_login_failure host id duration db ≡ ok (out, db')
    → AllApproved db'
unfolding record_login_failure
failure-AllApproved host id duration db a h = ground (
  arith,
  All-update_where Approved (user_id_is id) (strike host.now (host.now + duration)) db.users
      (λ u _ p. struck-Approved host.now (host.now + duration) u u.login_locked_until p) a,
)
