-- ===== src/Storage/Db.antt =====
-- The tables of crates/telepair-core/src/storage/sqlite.rs and migrations/, and their constraints.
use telepair.Base.{
  ℕ, Bool, ◌||◌, true, false, Option, none, some, List, ◌∷◌, String, if◌then◌else◌, ◌==◌, str_eq,
  ltb,
}
use telepair.Base.Rows.{exists_where}
use telepair.Core.Failure.{Fault, Error, Result, ok, err}
use telepair.Core.Records.{
  User, Session, Participant, InviteToken, RecordingRow, RecordingShareRow, UserTarget,
}

-- What one call draws from its host: the clock, a fresh UUID or nanoid, a fresh random token.
pub record Host : Type 0 where
  pub now : ℕ
  pub uuid : ℕ
  pub nanoid : ℕ
  pub raw_token : ℕ

-- A row of `users`: the columns of `User`, and those that only this layer reads.
pub record UserRow : Type 0 where
  pub user : User
  pub open user use *
  pub token_sha256 : ℕ
  pub password_hash : Option String
  pub verified : Bool
  pub login_failed_count : ℕ
  pub login_locked_until : Option ℕ

pub record PendingRow : Type 0 where
  pub email : ℕ
  pub display_name : String
  pub password_hash : String
  pub otp_code : ℕ
  pub otp_expires_at : ℕ
  pub otp_failure_count : ℕ
  pub created_at : ℕ
  pub updated_at : ℕ

pub record Database : Type 0 where
  pub users : List UserRow
  pub sessions : List Session
  pub participants : List Participant
  pub invite_tokens : List InviteToken
  pub pending_registrations : List PendingRow
  pub recordings : List RecordingRow
  pub recording_shares : List RecordingShareRow
  pub user_targets : List UserTarget

-- `column IS NULL`
abbrev pub is_null {ℓ} : {A : Type ℓ} → Option A → Bool
is_null none = true
is_null (some a) = false

-- `expires_at IS NULL OR expires_at > now`
abbrev pub unexpired : ℕ → Option ℕ → Bool
unexpired now none = true
unexpired now (some t) = ltb now t

abbrev pub same_email : ℕ → Option ℕ → Bool
same_email e none = false
same_email e (some f) = f == e

abbrev pub user_id_is : ℕ → UserRow → Bool
user_id_is id u = u.id == id

-- The UNIQUE constraints of `users`: id, name, token_sha256, and email where it is not NULL.
abbrev pub clashes : UserRow → UserRow → Bool
clashes new old =
    old.id == new.id
    || str_eq old.name new.name
    || old.token_sha256 == new.token_sha256
    || (elim new.email [ none ↦ false | some e ↦ same_email e old.email ])

unfoldable pub insert_user_row : UserRow → Database → Result Database
insert_user_row new db =
    if exists_where (clashes new) db.users
    then err (Error.storage Fault.unique_violation)
    else ok (record db { users = new ∷ db.users })
