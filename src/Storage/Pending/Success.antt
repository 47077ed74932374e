-- ===== src/Storage/Pending/Success.antt =====
-- What an accepted one-time code is worth.
use telepair.Base.{
  ℕ, ◌+◌, ◌<◌, ◌&&◌, false, ◌≡◌, ◌≢◌, ◌∙◌, sym, none, some, arith, Bool-cases, inl, inr, Option,
}
use telepair.Base.Rows.{find, delete_where}
use telepair.Base.Unique.{find-delete_where_self}
use telepair.Core.Failure.{ok}
use telepair.Core.Status.{ApprovalState}
use telepair.Core.Records.{User, PendingVerifyResult}
use telepair.Storage.Db.{Database, Host, PendingRow, insert_user_row}
use telepair.Storage.Accounts.{password_user, or_conflict, find_user_by_id, validate_token}
use telepair.Storage.Pending.{
  email_is, code_accepted, failure_verdict, uncounted_verdict, materialize,
  verify_pending_registration,
}
use telepair.Storage.Pending.Guessing.{UniqueEmails, email_key, pending_of, verify_verdict}

module _ (token_sha256 : ℕ → ℕ) (host : Host) (email code : ℕ) where
  materialize_inert :
      (p : PendingRow) (db : Database) {u : User} {raw : ℕ} {db' : Database}
      → materialize token_sha256 host email p db ≡ ok (PendingVerifyResult.success u raw, db')
      → (u.session_enabled ≡ false)
        × (u.approval_state ≡ ApprovalState.pending)
        × (u.is_admin ≡ false)
        × (u.email ≡ some email)
        × (find_user_by_id u.id db' ≡ some u)
        × (validate_token token_sha256 raw db' ≡ ok u)
        × (db'.pending_registrations ≡ db.pending_registrations)
  unfolding materialize or_conflict insert_user_row password_user find_user_by_id validate_token
      find
  materialize_inert p db h = ground arith

  verdict_not_success :
      (o : Option PendingRow) (n : ℕ) (u : User) (raw : ℕ)
      → (failure_verdict n ≢ PendingVerifyResult.success u raw)
        × (uncounted_verdict o ≢ PendingVerifyResult.success u raw)
  unfolding failure_verdict uncounted_verdict
  verdict_not_success none n u raw = (λ e. ground arith, λ e. ground arith)
  verdict_not_success (some p) n u raw = (λ e. ground arith, λ e. ground arith)

  -- Where e-mail addresses are unique, a verification that succeeds was given the code of a row
  -- that had not expired and had fewer than five strikes. The account it makes is stored with that
  -- address and is the one that the token of the answer authenticates; it has sessions disabled, is
  -- no administrator and waits for approval. The code is spent.
  pub verify_success :
      (db : Database) (p : PendingRow) {u : User} {raw : ℕ} {db' : Database}
      → UniqueEmails db
      → pending_of email db ≡ some p
      → verify_pending_registration token_sha256 host email code db
        ≡ ok (PendingVerifyResult.success u raw, db')
      → (p.otp_code ≡ code)
        × (host.now < p.otp_expires_at)
        × (p.otp_failure_count < 5)
        × (u.session_enabled ≡ false)
        × (u.approval_state ≡ ApprovalState.pending)
        × (u.is_admin ≡ false)
        × (u.email ≡ some email)
        × (find_user_by_id u.id db' ≡ some u)
        × (validate_token token_sha256 raw db' ≡ ok u)
        × (pending_of email db' ≡ none)
  verify_success db p {u} {raw} {db'} unique found h =
      let verdict = sym (verify_verdict token_sha256 host email code db p unique found) ∙ h in
      elim (Bool-cases (code_accepted host.now code p)) [
        | inl accepted ↦
            let consumed = record db {
              pending_registrations =
                  delete_where (λ r. email_is email r && code_accepted host.now code r)
                    db.pending_registrations;
            } in
            let made : materialize token_sha256 host email p consumed
                ≡ ok (PendingVerifyResult.success u raw, db') =
              ground (arith, verdict) in
            ground (
              arith,
              materialize_inert p consumed made,
              find-delete_where_self email_key email (code_accepted host.now code)
                  db.pending_registrations p unique found accepted,
            )
        | inr wrong ↦
            ground (arith, verdict, verdict_not_success (some p) (p.otp_failure_count + 1) u raw)
      ]
