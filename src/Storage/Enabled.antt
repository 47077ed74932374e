-- ===== src/Storage/Enabled.antt =====
-- Which accounts of crates/telepair-core/src/storage/sqlite.rs may open sessions: the methods that
-- write `users`, one after the other.
use telepair.Base.{
  ℕ, Bool, ◌&&◌, false, ◌≡◌, String, arith, Option, some, none, Bool-cases, Option-cases, inl, inr,
}
use telepair.Base.Rows.{find, update_where, exists_where, All-update_where}
use telepair.Core.Failure.{ok, >>=-eq-ok}
use telepair.Core.Records.{
  User, PendingVerifyResult, InviteToken, RedeemIdentity, RedeemOutcome, LoginFailureOutcome,
}
use telepair.Storage.Sessions.{upsert_row}
use telepair.Storage.Sessions.Joining.{upsert_row_frame}
use telepair.Storage.Invites.{
  redeem_invite, join_session, resolve_identity, diagnose, invite_is, consumable, use_once,
}
use telepair.Storage.Invites.Joining.{diagnose_ok}
use telepair.Storage.Db.{Database, Host, user_id_is, insert_user_row}
use telepair.Storage.Accounts.{
  create_user, create_scoped_guest, admin_create_password_user, set_session_enabled,
  change_password_and_rotate_token, refresh_user_token, insert_user, password_user, or_conflict,
  rotate_token, update_password_hash, with_token,
}
use telepair.Storage.Accounts.Approval.{
  Approved, AllApproved, set_session_enabled-AllApproved, hash-AllApproved, clear-AllApproved,
  lockout-AllApproved, failure-AllApproved,
}
use telepair.Storage.Logins.{clear_login_failures, check_login_lockout, record_login_failure}
use telepair.Storage.Pending.{verify_pending_registration, materialize, reject_code}

module _ (token_sha256 : ℕ → ℕ) where
  pub data Step (db : Database) : Database → Type 0 where
    create :
        (host : Host) (name : String) (is_admin : Bool) (u : User) (raw : ℕ) {db' : Database}
        → create_user token_sha256 host name is_admin db ≡ ok (u, raw, db')
        → Step db db'
    guest :
        (host : Host) (name : String) (sid : ℕ) (u : User) (raw : ℕ) {db' : Database}
        → create_scoped_guest token_sha256 host name sid db ≡ ok (u, raw, db')
        → Step db db'
    admin_create :
        (host : Host) (email : ℕ) (name hash : String) (is_admin enabled : Bool) (u : User)
        (raw : ℕ) {db' : Database}
        → admin_create_password_user token_sha256 host email name hash is_admin enabled db
          ≡ ok (u, raw, db')
        → Step db db'
    verify :
        (host : Host) (email code : ℕ) (r : PendingVerifyResult) {db' : Database}
        → verify_pending_registration token_sha256 host email code db ≡ ok (r, db')
        → Step db db'
    enable :
        (host : Host) (id : ℕ) (enabled : Bool) (u : User) {db' : Database}
        → set_session_enabled host id enabled db ≡ ok (u, db')
        → Step db db'
    change_password :
        (host : Host) (id : ℕ) (hash : String) (raw : ℕ) {db' : Database}
        → change_password_and_rotate_token token_sha256 host id hash db ≡ ok (raw, db')
        → Step db db'
    refresh :
        (host : Host) (id raw : ℕ) {db' : Database}
        → refresh_user_token token_sha256 host id db ≡ ok (raw, db')
        → Step db db'
    set_password :
        (host : Host) (id : ℕ) (hash : String) {db' : Database}
        → update_password_hash host id hash db ≡ ok (tt, db')
        → Step db db'
    login_failure :
        (host : Host) (id duration : ℕ) (out : LoginFailureOutcome) {db' : Database}
        → record_login_failure host id duration db ≡ ok (out, db')
        → Step db db'
    login_check : (host : Host) (id : ℕ) → Step db (check_login_lockout host id db).1
    login_success : (id : ℕ) → Step db (clear_login_failures id db)
    redeem :
        (host : Host) (token : ℕ) (identity : RedeemIdentity) (out : RedeemOutcome) {db' : Database}
        → redeem_invite token_sha256 host token identity db ≡ ok (out, db')
        → Step db db'

  pub data Reach (start : Database) : Database → Type 0 where
    here : Reach start start
    next : {db db' : Database} → Reach start db → Step db db' → Reach start db'

  insert_user-AllApproved :
      (host : Host) (name : String) (is_admin : Bool) (scope : Option ℕ) (u : User) (raw : ℕ)
      (db : Database) {db' : Database}
      → AllApproved db
      → insert_user token_sha256 host name is_admin scope db ≡ ok (u, raw, db')
      → AllApproved db'
  unfolding insert_user insert_user_row
  insert_user-AllApproved host name is_admin scope u raw db a h = ground (arith, a)

  admin-AllApproved :
      (host : Host) (email : ℕ) (name hash : String) (is_admin enabled : Bool) (u : User) (raw : ℕ)
      (db : Database) {db' : Database}
      → AllApproved db
      → admin_create_password_user token_sha256 host email name hash is_admin enabled db
        ≡ ok (u, raw, db')
      → AllApproved db'
  unfolding admin_create_password_user insert_user_row or_conflict password_user
  admin-AllApproved host email name hash is_admin enabled u raw db a h = ground (arith, a)

  verify-AllApproved :
      (host : Host) (email code : ℕ) (r : PendingVerifyResult) (db : Database) {db' : Database}
      → AllApproved db
      → verify_pending_registration token_sha256 host email code db ≡ ok (r, db')
      → AllApproved db'
  unfolding verify_pending_registration materialize insert_user_row or_conflict password_user
      reject_code
  verify-AllApproved host email code r db a h = ground (arith, a)

  rotate-AllApproved :
      (host : Host) (id : ℕ) (db : Database) {db' : Database}
      → AllApproved db
      → rotate_token token_sha256 host id db ≡ ok db'
      → AllApproved db'
  unfolding rotate_token
  rotate-AllApproved host id db a h = ground (
    arith,
    All-update_where Approved (user_id_is id) (with_token (token_sha256 host.raw_token) host.now)
        db.users (λ u _ p. p) a,
  )

  change-AllApproved :
      (host : Host) (id : ℕ) (hash : String) (raw : ℕ) (db : Database) {db' : Database}
      → AllApproved db
      → change_password_and_rotate_token token_sha256 host id hash db ≡ ok (raw, db')
      → AllApproved db'
  unfolding change_password_and_rotate_token
  change-AllApproved host id hash raw db a h =
      let ((_, mid), hashed, rest) = >>=-eq-ok (update_password_hash host id hash db) _ h in
      let (last, rotated, done) = >>=-eq-ok (rotate_token token_sha256 host id mid) _ rest in
      ground (
        arith,
        rotate-AllApproved host id mid (hash-AllApproved host id hash db a hashed) rotated,
        done,
      )

  resolve-AllApproved :
      (host : Host) (i : InviteToken) (identity : RedeemIdentity) (db : Database)
      (r : ℕ × String × Option ℕ × Database)
      → AllApproved db
      → resolve_identity token_sha256 host i identity db ≡ ok r
      → AllApproved r.3
  unfolding resolve_identity insert_user_row
  resolve-AllApproved host i (RedeemIdentity.existing uid) db r a h = ground (arith, a)
  resolve-AllApproved host i (RedeemIdentity.new_guest name) db r a h = ground (arith, a)

  join-AllApproved :
      (host : Host) (i : InviteToken) (identity : RedeemIdentity) (out : RedeemOutcome)
      (db : Database) {db' : Database}
      → AllApproved db
      → join_session token_sha256 host i identity db ≡ ok (out, db')
      → AllApproved db'
  unfolding join_session
  join-AllApproved host i identity out db a h =
      let (r, resolved, rest) = >>=-eq-ok (resolve_identity token_sha256 host i identity db) _ h in
      let (db'', joined, done) =
        >>=-eq-ok (upsert_row i.session_id r.0 i.role host.now r.3) _ rest in
      ground (
        arith,
        resolve-AllApproved host i identity db r a resolved,
        upsert_row_frame i.session_id r.0 i.role host.now r.3 joined,
        done,
      )

  redeem-AllApproved :
      (host : Host) (token : ℕ) (identity : RedeemIdentity) (out : RedeemOutcome) (db : Database)
      {db' : Database}
      → AllApproved db
      → redeem_invite token_sha256 host token identity db ≡ ok (out, db')
      → AllApproved db'
  unfolding redeem_invite
  redeem-AllApproved host token identity out db {db'} a h =
      let sha = token_sha256 token in
      let guard = (λ (i : InviteToken). invite_is sha i && consumable host.now identity db i) in
      let tokens = update_where guard use_once db.invite_tokens in
      elim (Bool-cases (exists_where guard db.invite_tokens)) [
        | inl open_to ↦ elim (Option-cases (find (invite_is sha) tokens)) [
          | inl absent ↦ ground (arith, h, open_to, absent)
          | inr (i, found) ↦
              join-AllApproved host i identity out (record db { invite_tokens = tokens })
                {db' = db'} a (ground (arith, h, open_to, found))
        ]
        | inr closed ↦ elim (Option-cases (find (invite_is sha) db.invite_tokens)) [
          | inl absent ↦ ground (arith, h, closed, absent)
          | inr (i, found) ↦
              let said : diagnose host.now i identity db ≡ ok (out, db') =
                ground (arith, h, closed, found) in
              rw (diagnose_ok token_sha256 host token i identity db said).0 a
        ]
      ]

  Step-AllApproved : {db db' : Database} → AllApproved db → Step db db' → AllApproved db'
  unfolding create_user create_scoped_guest refresh_user_token
  Step-AllApproved {db} a (create host name is_admin u raw h) =
      insert_user-AllApproved host name is_admin none u raw db a h
  Step-AllApproved {db} a (guest host name sid u raw h) =
      insert_user-AllApproved host name false (some sid) u raw db a h
  Step-AllApproved {db} a (admin_create host email name hash is_admin enabled u raw h) =
      admin-AllApproved host email name hash is_admin enabled u raw db a h
  Step-AllApproved {db} a (verify host email code r h) = verify-AllApproved host email code r db a h
  Step-AllApproved {db} a (redeem host token identity out h) =
      redeem-AllApproved host token identity out db a h
  Step-AllApproved {db} a (set_password host id hash h) = hash-AllApproved host id hash db a h
  Step-AllApproved {db} a (login_failure host id duration out h) =
      failure-AllApproved host id duration db a h
  Step-AllApproved {db} a (login_check host id) = lockout-AllApproved host id db a
  Step-AllApproved {db} a (login_success id) = clear-AllApproved id db a
  Step-AllApproved {db} a (enable host id enabled u h) =
      set_session_enabled-AllApproved host id enabled db a h
  Step-AllApproved {db} a (change_password host id hash raw h) =
      change-AllApproved host id hash raw db a h
  Step-AllApproved {db} {db'} a (refresh host id raw h) =
      let (last, rotated, done) = >>=-eq-ok (rotate_token token_sha256 host id db) _ h in
      ground (arith, rotate-AllApproved host id db a rotated, done)

  -- From a database where every account that may open sessions has been approved, whatever
  -- accounts are created, verified, let in as guests by an invite, enabled, disabled, given new
  -- credentials, locked or unlocked, and in whatever order: that stays so.
  pub Reach-AllApproved :
      {start db : Database} → AllApproved start → Reach start db → AllApproved db
  Reach-AllApproved a here = a
  Reach-AllApproved a (next r s) = Step-AllApproved (Reach-AllApproved a r) s
