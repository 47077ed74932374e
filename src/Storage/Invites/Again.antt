-- ===== src/Storage/Invites/Again.antt =====
-- Redeeming the same invite twice.
use telepair.Base.{
  ℕ, true, ◌≡◌, refl, sym, ◌∙◌, none, some, arith, Bool-cases, Option-cases, inl, inr,
}
use telepair.Base.Rows.{find, exists_where}
use telepair.Base.Unique.{Unique-update_where, find-Unique, find-absent}
use telepair.Core.Failure.{ok, >>=-eq-ok}
use telepair.Core.Records.{InviteToken, RedeemIdentity, RedeemOutcome}
use telepair.Storage.Db.{Database, Host, user_id_is}
use telepair.Storage.Sessions.{session_is, session_alive, upsert_row}
use telepair.Storage.Sessions.Joining.{upsert_row_frame, upsert_row_present}
use telepair.Storage.Invites.{
  invite_is, check_invite_validity, consumable, present, use_once, member_name, diagnose,
  resolve_identity, join_session, redeem_invite,
}
use telepair.Storage.Invites.Redeem.{
  digest, UniqueInvites, UniqueSessions, session_key, alive, redeem_known,
}
use telepair.Storage.Invites.Joining.{spend, spend_found, consumable_guards, diagnose_ok}

module _ (token_sha256 : ℕ → ℕ) (host : Host) (token uid : ℕ) where
  -- The caller is a member of the session, and a user.
  abbrev pub Member : ℕ → Database → Type 0
  Member sid db = (present sid uid db ≡ true) × (exists_where (user_id_is uid) db.users ≡ true)

  pub join_session-Member :
      (i : InviteToken) (db : Database) {out : RedeemOutcome} {db' : Database}
      → join_session token_sha256 host i (RedeemIdentity.existing uid) db ≡ ok (out, db')
      → Member i.session_id db'
        × (db'.sessions ≡ db.sessions)
        × (db'.invite_tokens ≡ db.invite_tokens)
  unfolding join_session resolve_identity
  join_session-Member i db h =
      let (r, resolved, rest) =
        >>=-eq-ok (resolve_identity token_sha256 host i (RedeemIdentity.existing uid) db) _ h in
      let (db'', joined, done) =
        >>=-eq-ok (upsert_row i.session_id r.0 i.role host.now r.3) _ rest in
      ground (
        arith,
        upsert_row_frame i.session_id r.0 i.role host.now r.3 joined,
        upsert_row_present i.session_id r.0 i.role host.now r.3 joined,
      )

  pub diagnose-Member :
      (i : InviteToken) (db : Database) {out : RedeemOutcome} {db' : Database}
      → UniqueSessions db
      → diagnose host.now i (RedeemIdentity.existing uid) db ≡ ok (out, db')
      → Member i.session_id db × (session_alive i.session_id db.sessions ≡ true)
  unfolding diagnose check_invite_validity member_name
  diagnose-Member i db v h = elim (Option-cases (find (session_is i.session_id) db.sessions)) [
    | inl gone ↦ ground arith
    | inr (s, s_found) ↦
        ground (arith, find-Unique session_key i.session_id alive db.sessions s v s_found)
  ]

  -- Where the caller is a member of an active session, a redeem changes nothing and says so.
  redeem_Member :
      (db : Database) (i : InviteToken)
      → UniqueInvites db
      → UniqueSessions db
      → find (invite_is (token_sha256 token)) db.invite_tokens ≡ some i
      → session_alive i.session_id db.sessions ≡ true
      → Member i.session_id db
      → (out : RedeemOutcome) × (redeem_invite token_sha256 host token
            (RedeemIdentity.existing uid)
            db
          ≡ ok (out, db))
        × (out.was_already_member ≡ true)
        × (out.user_id ≡ uid)
  unfolding diagnose consumable member_name
  redeem_Member db i u v found live m =
      elim (Option-cases (find (session_is i.session_id) db.sessions)) [
        | inl gone ↦ ground (arith, find-absent session_key i.session_id alive db.sessions gone)
        | inr (s, s_found) ↦ (elim (Option-cases (find (user_id_is uid) db.users)) [
          | inl nobody ↦ ground arith
          | inr (row, row_found) ↦ (
            record {
              invite = i;
              user_id = uid;
              user_name = row.name;
              issued_token = none;
              was_already_member = true;
            },
            ground (
              arith,
              redeem_known token_sha256 host token (RedeemIdentity.existing uid) db i u found,
              find-Unique session_key i.session_id alive db.sessions s v s_found,
            ),
            refl,
            refl,
          )
        ])
      ]

module _ (token_sha256 : ℕ → ℕ) (host later : Host) (token uid : ℕ) where
  -- On a database with unique invite digests and session ids, a known caller who redeemed an
  -- invite may redeem it again at any later time: the second call succeeds, says that the caller
  -- was a member already, and leaves the database as it is, so that no further use is spent, even
  -- if the invite is exhausted or expired by then.
  pub redeem_invite_again :
      (db : Database) (i : InviteToken) {out : RedeemOutcome} {db' : Database}
      → UniqueInvites db
      → UniqueSessions db
      → find (invite_is (token_sha256 token)) db.invite_tokens ≡ some i
      → redeem_invite token_sha256 host token (RedeemIdentity.existing uid) db ≡ ok (out, db')
      → (again : RedeemOutcome) × (redeem_invite token_sha256 later token
            (RedeemIdentity.existing uid)
            db'
          ≡ ok (again, db'))
        × (again.was_already_member ≡ true)
        × (again.user_id ≡ uid)
  redeem_invite_again db i {out} {db'} u v found h =
      let caller = RedeemIdentity.existing uid in
      let known = redeem_known token_sha256 host token caller db i u found in
      elim (Bool-cases (consumable host.now caller db i)) [
        | inl c ↦
            let joined : join_session token_sha256 host (use_once i) caller
                  (spend token_sha256 host token db)
                ≡ ok (out, db') =
              sym (known ∙ rw c) ∙ h in
            let (m, ss, ts) =
              join_session-Member token_sha256 host token uid (use_once i)
                (spend token_sha256 host token db) joined in
            redeem_Member token_sha256 later token uid db' (use_once i)
              (rw ts (Unique-update_where digest _ use_once db.invite_tokens (λ r. refl) u))
              (rw ss v) (rw ts (spend_found token_sha256 host token db i found))
              (rw ss (consumable_guards token_sha256 host token caller db i c).2) m
        | inr c ↦
            let refused : diagnose host.now i caller db ≡ ok (out, db') = sym (known ∙ rw c) ∙ h in
            let (m, live) = diagnose-Member token_sha256 host token uid i db v refused in
            rw (diagnose_ok token_sha256 host token i caller db refused).0
              (redeem_Member token_sha256 later token uid db i u v found live m)
      ]
