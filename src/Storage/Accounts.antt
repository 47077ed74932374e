-- ===== src/Storage/Accounts.antt =====
-- crates/telepair-core/src/storage/sqlite.rs: accounts, bearer tokens and passwords.
pub mod Passwords
pub mod Approval
use telepair.Base.{
  ℕ, Bool, ◌&&◌, true, false, not, Option, none, some, List, String, if◌then◌else◌, ◌==◌,
  map_option,
}
use telepair.Base.Rows.{find, update_where, exists_where}
use telepair.Core.Failure.{Message, Fault, Error, Result, ok, err, ◌>>=◌, is_unique_violation}
use telepair.Core.Status.{ApprovalState}
use telepair.Core.Records.{User}
use telepair.Storage.Db.{Database, Host, UserRow, user_id_is, same_email, insert_user_row}

abbrev pub token_is : ℕ → UserRow → Bool
token_is sha u = u.token_sha256 == sha

abbrev pub user_of : UserRow → User
user_of u = u.user

unfoldable pub find_user_by_id : ℕ → Database → Option User
find_user_by_id id db = map_option user_of (find (user_id_is id) db.users)

unfoldable pub get_user_by_email : ℕ → Database → Option User
get_user_by_email email db =
    map_option user_of (find (λ (u : UserRow). same_email email u.email) db.users)

abbrev pub password_of : Option UserRow → Option String
password_of none = none
password_of (some u) = u.password_hash

unfoldable pub get_password_hash : ℕ → Database → Option String
get_password_hash id db = password_of (find (user_id_is id) db.users)

abbrev pub user_not_found : ℕ → Message
user_not_found id = Message.about "user " id " not found"

abbrev pub with_password : String → ℕ → UserRow → UserRow
with_password hash now u = record u {
  user = record (u.user) { updated_at = now };
  password_hash = some hash;
}

unfoldable pub update_password_hash : Host → ℕ → String → Database → Result (Unit {0} × Database)
update_password_hash host id new_hash db =
    if exists_where (user_id_is id) db.users
    then ok (
      tt,
      record db { users = update_where (user_id_is id) (with_password new_hash host.now) db.users },
    )
    else err (Error.invalid_input (user_not_found id))

-- `SET session_enabled = TRUE, approval_state = 'approved'`, or `SET session_enabled = FALSE`.
abbrev pub with_enabled : Bool → ℕ → UserRow → UserRow
with_enabled true now u = record u {
  user = record (u.user) {
    session_enabled = true;
    approval_state = ApprovalState.approved;
    updated_at = now;
  };
}
with_enabled false now u = record u {
  user = record (u.user) { session_enabled = false; updated_at = now };
}

unfoldable pub set_session_enabled : Host → ℕ → Bool → Database → Result (User × Database)
set_session_enabled host id enabled db =
    let users = update_where (user_id_is id) (with_enabled enabled host.now) db.users in
    (elim (find (user_id_is id) users) [
      | none ↦ err (Error.invalid_input (user_not_found id))
      | some u ↦ ok (u.user, record db { users = users })
    ])

abbrev pub with_token : ℕ → ℕ → UserRow → UserRow
with_token sha now u = record u { user = record (u.user) { updated_at = now }; token_sha256 = sha }

-- `map_err`: a UNIQUE violation becomes a conflict with the given message.
unfoldable pub or_conflict {ℓ} : {A : Type ℓ} → Message → Result A → Result A
or_conflict m (ok a) = ok a
or_conflict m (err e) = if is_unique_violation e then err (Error.conflict m) else err e

module _ (token_sha256 : ℕ → ℕ) where
  unfoldable pub insert_user :
      Host → String → Bool → Option ℕ → Database → Result (User × ℕ × Database)
  insert_user host name is_admin scoped_session_id db =
      insert_user_row row db >>= λ db'. ok (row.user, host.raw_token, db')
    where
      row : UserRow
      row = record {
        user = record {
          id = host.uuid;
          name = name;
          is_admin = is_admin;
          scoped_session_id = scoped_session_id;
          email = none;
          session_enabled = true;
          approval_state = ApprovalState.approved;
          created_at = host.now;
          updated_at = host.now;
        };
        token_sha256 = token_sha256 host.raw_token;
        password_hash = none;
        verified = true;
        login_failed_count = 0;
        login_locked_until = none;
      }

  unfoldable pub create_user : Host → String → Bool → Database → Result (User × ℕ × Database)
  create_user host name is_admin db = insert_user host name is_admin none db

  unfoldable pub create_scoped_guest : Host → String → ℕ → Database → Result (User × ℕ × Database)
  create_scoped_guest host name session_id db = insert_user host name false (some session_id) db

  unfoldable pub validate_token : ℕ → Database → Result User
  validate_token token db = elim (find (token_is (token_sha256 token)) db.users) [
    | none ↦ err (Error.auth (Message.text "invalid token"))
    | some u ↦ ok u.user
  ]

  -- `INSERT_PASSWORD_USER_SQL`, which the OTP path and the admin path share.
  unfoldable pub password_user : Host → ℕ → String → String → Bool → Bool → ApprovalState → UserRow
  password_user host email name password_hash is_admin session_enabled approval_state = record {
    user = record {
      id = host.uuid;
      name = name;
      is_admin = is_admin;
      scoped_session_id = none;
      email = some email;
      session_enabled = session_enabled;
      approval_state = approval_state;
      created_at = host.now;
      updated_at = host.now;
    };
    token_sha256 = token_sha256 host.raw_token;
    password_hash = some password_hash;
    verified = true;
    login_failed_count = 0;
    login_locked_until = none;
  }

  unfoldable pub admin_create_password_user :
      Host → ℕ → String → String → Bool → Bool → Database → Result (User × ℕ × Database)
  admin_create_password_user host email name password_hash is_admin session_enabled db =
      let row =
        password_user host email name password_hash is_admin session_enabled
          ApprovalState.approved in
      or_conflict
        (Message.join (Message.quoting "a user with name '" name "'")
          (Message.about " or email '" email "' already exists"))
        (insert_user_row row db)
      >>= λ db'. ok (row.user, host.raw_token, db')

  -- `UPDATE users SET token_sha256 = ?` under the UNIQUE constraint on that column.
  unfoldable pub rotate_token : Host → ℕ → Database → Result Database
  rotate_token host id db =
      let sha = token_sha256 host.raw_token in
      if exists_where (λ (u : UserRow). token_is sha u && not (user_id_is id u)) db.users
      then err (Error.storage Fault.unique_violation)
      else ok
          (record db { users = update_where (user_id_is id) (with_token sha host.now) db.users })

  unfoldable pub refresh_user_token : Host → ℕ → Database → Result (ℕ × Database)
  refresh_user_token host id db = rotate_token host id db >>= λ db'. ok (host.raw_token, db')

  unfoldable pub change_password_and_rotate_token :
      Host → ℕ → String → Database → Result (ℕ × Database)
  change_password_and_rotate_token host id new_hash db =
      update_password_hash host id new_hash db >>= λ (_, db').
      rotate_token host id db' >>= λ db''. ok (host.raw_token, db'')
