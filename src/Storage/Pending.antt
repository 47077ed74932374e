-- ===== src/Storage/Pending.antt =====
-- crates/telepair-core/src/storage/sqlite.rs: registrations that wait for their one-time code.
pub mod Guessing
pub mod Success
use telepair.Base.{
  ℕ, ◌+◌, ◌-◌, Bool, ◌&&◌, true, false, Option, none, some, List, ◌∷◌, String, if◌then◌else◌, ◌==◌,
  ltb, leb, map_option,
}
use telepair.Base.Rows.{find, update_where, delete_where, exists_where, count_where}
use telepair.Core.Failure.{Message, Error, Result, ok, err, ◌>>=◌}
use telepair.Core.Status.{ApprovalState}
use telepair.Core.Records.{PendingVerifyResult}
use telepair.Storage.Db.{Database, Host, UserRow, PendingRow, insert_user_row}
use telepair.Storage.Accounts.{password_user, or_conflict}

abbrev pub email_is : ℕ → PendingRow → Bool
email_is email p = p.email == email

-- `INSERT … ON CONFLICT(email) DO UPDATE`: a fresh code starts a fresh count.
unfoldable pub upsert_pending_registration :
    Host → ℕ → String → String → ℕ → ℕ → Database → Database
upsert_pending_registration host email display_name password_hash otp_code otp_expires_at db =
    if exists_where (email_is email) db.pending_registrations
    then record db {
      pending_registrations =
          update_where (email_is email)
            (λ p. record p {
              display_name = display_name;
              password_hash = password_hash;
              otp_code = otp_code;
              otp_expires_at = otp_expires_at;
              otp_failure_count = 0;
              updated_at = host.now;
            })
            db.pending_registrations;
    }
    else record db {
      pending_registrations =
          record {
            email = email;
            display_name = display_name;
            password_hash = password_hash;
            otp_code = otp_code;
            otp_expires_at = otp_expires_at;
            otp_failure_count = 0;
            created_at = host.now;
            updated_at = host.now;
          }
          ∷ db.pending_registrations;
    }

unfoldable pub latest_pending_registration_at : ℕ → Database → Option ℕ
latest_pending_registration_at email db =
    map_option (λ (p : PendingRow). p.updated_at) (find (email_is email) db.pending_registrations)

unfoldable pub delete_pending_registration : ℕ → ℕ → Database → Database
delete_pending_registration email otp_code db = record db {
  pending_registrations =
      delete_where (λ p. email_is email p && p.otp_code == otp_code) db.pending_registrations;
}

-- The number of rows swept comes back with the database.
unfoldable pub sweep_pending_registrations : ℕ → Database → ℕ × Database
sweep_pending_registrations cutoff db = (
  count_where (λ (p : PendingRow). ltb p.updated_at cutoff) db.pending_registrations,
  record db {
    pending_registrations =
        delete_where (λ (p : PendingRow). ltb p.updated_at cutoff) db.pending_registrations;
  },
)

-- The WHERE of the DELETE that consumes the row, besides the e-mail address.
abbrev pub code_accepted : ℕ → ℕ → PendingRow → Bool
code_accepted now code p =
    p.otp_code == code && ltb now p.otp_expires_at && ltb p.otp_failure_count 5

-- The WHERE of the UPDATE that counts a wrong code.
abbrev pub countable : ℕ → PendingRow → Bool
countable now p = ltb p.otp_failure_count 5 && ltb now p.otp_expires_at

abbrev pub count_failure : PendingRow → PendingRow
count_failure p = record p { otp_failure_count = p.otp_failure_count + 1 }

-- What a count that reached five, or did not, is reported as.
unfoldable pub failure_verdict : ℕ → PendingVerifyResult
failure_verdict new_count =
    if leb 5 new_count
    then PendingVerifyResult.locked
    else PendingVerifyResult.failure (5 - new_count)

-- No row was counted: is there a locked one?
unfoldable pub uncounted_verdict : Option PendingRow → PendingVerifyResult
uncounted_verdict none = PendingVerifyResult.expired
uncounted_verdict (some p) =
    if leb 5 p.otp_failure_count then PendingVerifyResult.locked else PendingVerifyResult.expired

-- The branch of a code that is not accepted.
unfoldable pub reject_code : ℕ → ℕ → Database → PendingVerifyResult × Database
reject_code now email db =
    let guard = (λ (p : PendingRow). email_is email p && countable now p) in
    (elim (find guard db.pending_registrations) [
      | some p ↦ (
        failure_verdict (p.otp_failure_count + 1),
        record db {
          pending_registrations = update_where guard count_failure db.pending_registrations;
        },
      )
      | none ↦ (uncounted_verdict (find (email_is email) db.pending_registrations), db)
    ])

module _ (token_sha256 : ℕ → ℕ) where
  -- The branch of a code that is accepted: the row becomes a user.
  unfoldable pub materialize :
      Host → ℕ → PendingRow → Database → Result (PendingVerifyResult × Database)
  materialize host email p db =
      let row =
        password_user token_sha256 host email p.display_name p.password_hash false false
          ApprovalState.pending in
      or_conflict
        (Message.quoting "display name '" p.display_name
          "' is already taken — please re-register with a different name")
        (insert_user_row row db)
      >>= λ db'. ok (PendingVerifyResult.success row.user host.raw_token, db')

  unfoldable pub verify_pending_registration :
      Host → ℕ → ℕ → Database → Result (PendingVerifyResult × Database)
  verify_pending_registration host email code db =
      let guard = (λ (p : PendingRow). email_is email p && code_accepted host.now code p) in
      (elim (find guard db.pending_registrations) [
        | some p ↦
            materialize host email p
              (record db { pending_registrations = delete_where guard db.pending_registrations })
        | none ↦ ok (reject_code host.now email db)
      ])
