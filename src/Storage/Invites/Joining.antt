-- ===== src/Storage/Invites/Joining.antt =====
-- What a redeem leaves behind: one use less, a participant with the role of the invite, and
-- nothing to do for the same caller a second time.
use telepair.Base.{
  String, ℕ, ◌+◌, ◌<◌, true, false, ◌≡◌, sym, ◌∙◌, Option, some, arith, Bool-cases, inl, inr,
}
use telepair.Base.Rows.{find, update_where, find-update_where}
use telepair.Core.Failure.{ok, >>=-eq-ok}
use telepair.Core.Records.{InviteToken, RedeemIdentity, RedeemOutcome}
use telepair.Storage.Db.{Database, Host, unexpired, insert_user_row}
use telepair.Storage.Sessions.{session_alive, upsert_row, find_active_participant_role}
use telepair.Storage.Sessions.Joining.{upsert_row_frame, find_active_participant_role-upsert_row}
use telepair.Storage.Invites.{
  invite_is, check_invite_validity, consumable, use_once, diagnose, resolve_identity, join_session,
  redeem_invite,
}
use telepair.Storage.Invites.Redeem.{UniqueInvites, redeem_known}

module _ (token_sha256 : ℕ → ℕ) (host : Host) (token : ℕ) where
  abbrev pub sha : ℕ
  sha = token_sha256 token

  abbrev pub spend : Database → Database
  spend db = record db {
    invite_tokens =
        update_where (invite_is sha)
          (λ (i : InviteToken). record i { used_count = i.used_count + 1 }) db.invite_tokens;
  }

  pub spend_found :
      (db : Database) (i : InviteToken)
      → find (invite_is sha) db.invite_tokens ≡ some i
      → find (invite_is sha) (spend db).invite_tokens ≡ some (use_once i)
  spend_found db i found =
      find-update_where (invite_is sha) use_once db.invite_tokens (λ r h. h) ∙ rw found

  -- An outcome of `diagnose` is the database as it was, and a caller who is in the session.
  pub diagnose_ok :
      (i : InviteToken) (identity : RedeemIdentity) (db : Database) {out : RedeemOutcome}
      {db' : Database}
      → diagnose host.now i identity db ≡ ok (out, db')
      → (db' ≡ db) × (out.was_already_member ≡ true)
  unfolding diagnose check_invite_validity
  diagnose_ok i identity db h = ground arith

  -- The account that a redeem is for: the caller's, or the one that a guest is given.
  abbrev pub caller_of : RedeemIdentity → ℕ
  caller_of (RedeemIdentity.existing uid) = uid
  caller_of (RedeemIdentity.new_guest name) = host.uuid

  resolve_identity_ok :
      (i : InviteToken) (identity : RedeemIdentity) (db : Database)
      (r : ℕ × String × Option ℕ × Database)
      → resolve_identity token_sha256 host i identity db ≡ ok r
      → (r.3.invite_tokens ≡ db.invite_tokens)
        × (r.3.sessions ≡ db.sessions)
        × (r.0 ≡ caller_of identity)
  unfolding resolve_identity insert_user_row
  resolve_identity_ok i (RedeemIdentity.existing uid) db r h = ground arith
  resolve_identity_ok i (RedeemIdentity.new_guest name) db r h = ground arith

  join_session_ok :
      (i : InviteToken) (identity : RedeemIdentity) (db : Database) {out : RedeemOutcome}
      {db' : Database}
      → join_session token_sha256 host i identity db ≡ ok (out, db')
      → session_alive i.session_id db.sessions ≡ true
      → (db'.invite_tokens ≡ db.invite_tokens)
        × (out.was_already_member ≡ false)
        × (out.user_id ≡ caller_of identity)
        × (find_active_participant_role i.session_id out.user_id db' ≡ some i.role)
  unfolding join_session
  join_session_ok i identity db h alive =
      let (r, resolved, rest) = >>=-eq-ok (resolve_identity token_sha256 host i identity db) _ h in
      let (db'', joined, done) =
        >>=-eq-ok (upsert_row i.session_id r.0 i.role host.now r.3) _ rest in
      ground (
        arith,
        resolve_identity_ok i identity db r resolved,
        upsert_row_frame i.session_id r.0 i.role host.now r.3 joined,
        find_active_participant_role-upsert_row i.session_id r.0 i.role host.now r.3 joined,
      )

  pub consumable_guards :
      (identity : RedeemIdentity) (db : Database) (i : InviteToken)
      → consumable host.now identity db i ≡ true
      → (i.used_count < i.max_uses)
        × (unexpired host.now i.expires_at ≡ true)
        × (session_alive i.session_id db.sessions ≡ true)
  unfolding consumable
  consumable_guards (RedeemIdentity.existing uid) db i c = ground arith
  consumable_guards (RedeemIdentity.new_guest name) db i c = ground arith

  -- On a database with unique invite digests, a redeem that lets somebody new in consumed exactly
  -- one use of an invite that had one left, had not expired and was for an active session, and the
  -- caller, whose account the outcome names, holds the role of the invite.
  pub redeem_invite_joins :
      (identity : RedeemIdentity) (db : Database) (i : InviteToken) {out : RedeemOutcome}
      {db' : Database}
      → UniqueInvites db
      → find (invite_is sha) db.invite_tokens ≡ some i
      → redeem_invite token_sha256 host token identity db ≡ ok (out, db')
      → out.was_already_member ≡ false
      → (i.used_count < i.max_uses)
        × (unexpired host.now i.expires_at ≡ true)
        × (session_alive i.session_id db.sessions ≡ true)
        × (db'.invite_tokens ≡ (spend db).invite_tokens)
        × (out.user_id ≡ caller_of identity)
        × (find_active_participant_role i.session_id out.user_id db' ≡ some i.role)
  redeem_invite_joins identity db i {out} {db'} u found h fresh =
      let known = redeem_known token_sha256 host token identity db i u found in
      elim (Bool-cases (consumable host.now identity db i)) [
        | inl c ↦
            let guards = consumable_guards identity db i c in
            let joined : join_session token_sha256 host (use_once i) identity (spend db)
                ≡ ok (out, db') =
              sym (known ∙ rw c) ∙ h in
            ground (arith, guards, join_session_ok (use_once i) identity (spend db) joined guards.2)
        | inr c ↦
            let refused : diagnose host.now i identity db ≡ ok (out, db') =
              sym (known ∙ rw c) ∙ h in
            ground (arith, diagnose_ok i identity db refused)
      ]
