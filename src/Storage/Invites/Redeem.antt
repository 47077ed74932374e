-- ===== src/Storage/Invites/Redeem.antt =====
-- Redeeming an invite: the guarded UPDATE against the checks in their order, and what a redeem
-- leaves behind.
use telepair.Base.{
  ℕ, Bool, true, false, not, ◌||◌, ◌≡◌, refl, ◌∙◌, Option, none, some, arith, ltb, leb,
  if◌then◌else◌, Bool-cases, Option-cases, inl, inr,
}
use telepair.Base.Rows.{find, update_where, exists_where}
use telepair.Base.Unique.{
  Unique, find-absent, find-Unique, find-update_where_self, update_where-Unique,
}
use telepair.Core.Failure.{Message, Error, Result, ok, err}
use telepair.Core.Status.{is_active}
use telepair.Core.Records.{Session, InviteToken, RedeemIdentity, RedeemOutcome}
use telepair.Storage.Db.{Database, Host, unexpired, user_id_is}
use telepair.Storage.Sessions.{session_is}
use telepair.Storage.Invites.{
  invite_is, invalid_token, check_invite_validity, consumable, present, use_once, member_name,
  diagnose, join_session, redeem_invite,
}

abbrev pub digest : InviteToken → ℕ
digest i = i.token_sha256

abbrev pub UniqueInvites : Database → Type 0
UniqueInvites db = Unique digest db.invite_tokens

abbrev pub UniqueSessions : Database → Type 0
UniqueSessions db = Unique (λ (s : Session). s.id) db.sessions

-- FOREIGN KEY (user_id) of `participants`.
abbrev pub MembersExist : Database → Type 0
MembersExist db =
    (sid uid : ℕ) → present sid uid db ≡ true → exists_where (user_id_is uid) db.users ≡ true

abbrev pub expired_before : ℕ → Option ℕ → Bool
expired_before now none = false
expired_before now (some at) = ltb at now

abbrev pub session_key : Session → ℕ
session_key s = s.id

abbrev pub alive : Session → Bool
alive s = is_active s.status

module _ (token_sha256 : ℕ → ℕ) (host : Host) (token : ℕ) where
  abbrev sha : ℕ
  sha = token_sha256 token

  -- The specification: the checks one by one, in the order in which their failures are reported.
  unfoldable pub checks_in_order :
      RedeemIdentity → Database → InviteToken → Result (RedeemOutcome × Database)
  checks_in_order identity db i = elim (find (session_is i.session_id) db.sessions) [
    | none ↦ err (Error.session_not_found i.session_id)
    | some s ↦
        if not (is_active s.status)
        then err (Error.session_closed i.session_id)
        else (elim (member_name i.session_id identity db) [
          | some (uid, name) ↦ ok (
            record {
              invite = i;
              user_id = uid;
              user_name = name;
              issued_token = none;
              was_already_member = true;
            },
            db,
          )
          | none ↦
              if expired_before host.now i.expires_at
              then err (Error.invalid_input (Message.text "invite token has expired"))
              else if leb i.max_uses i.used_count || not (unexpired host.now i.expires_at)
              then err invalid_token
              else join_session token_sha256 host (use_once i) identity (record db {
                invite_tokens = update_where (invite_is sha) use_once db.invite_tokens;
              })
        ])
  ]

  unfoldable pub redeem_in_order : RedeemIdentity → Database → Result (RedeemOutcome × Database)
  redeem_in_order identity db = elim (find (invite_is sha) db.invite_tokens) [
    | none ↦ err invalid_token
    | some i ↦ checks_in_order identity db i
  ]

  pub redeem_unknown :
      (identity : RedeemIdentity) (db : Database)
      → find (invite_is sha) db.invite_tokens ≡ none
      → redeem_invite token_sha256 host token identity db ≡ err invalid_token
  unfolding redeem_invite
  redeem_unknown identity db h =
      ground (arith, find-absent digest sha (consumable host.now identity db) db.invite_tokens h)

  module _ (identity : RedeemIdentity) (db : Database) (i : InviteToken) where
    pub redeem_known :
        UniqueInvites db
        → find (invite_is sha) db.invite_tokens ≡ some i
        → redeem_invite token_sha256 host token identity db ≡ (
            if consumable host.now identity db i
            then join_session token_sha256 host (use_once i) identity (record db {
              invite_tokens = update_where (invite_is sha) use_once db.invite_tokens;
            })
            else diagnose host.now i identity db)
    unfolding redeem_invite
    redeem_known u h =
        let q = consumable host.now identity db in
        let split = find-Unique digest sha q db.invite_tokens i u h in
        elim (Bool-cases (q i)) [
          | inl c ↦ ground (
            arith,
            split,
            find-update_where_self digest sha q use_once db.invite_tokens i (λ x. refl) h c,
            update_where-Unique digest sha q use_once db.invite_tokens i u h c,
          )
          | inr c ↦ ground (arith, split)
        ]

  checks :
      (identity : RedeemIdentity) (db : Database) (i : InviteToken)
      → UniqueSessions db
      → MembersExist db
      → (if consumable host.now identity db i
          then join_session token_sha256 host
              (use_once i)
              identity
              (record db { invite_tokens = update_where (invite_is sha) use_once db.invite_tokens })
          else diagnose host.now i identity db)
        ≡ checks_in_order identity db i
  unfolding checks_in_order consumable diagnose check_invite_validity member_name
  checks (RedeemIdentity.new_guest name) db i v fk =
      elim (Option-cases (find (session_is i.session_id) db.sessions)) [
        | inl gone ↦ ground (arith, find-absent session_key i.session_id alive db.sessions gone)
        | inr (s, found) ↦
            ground (arith, find-Unique session_key i.session_id alive db.sessions s v found)
      ]
  checks (RedeemIdentity.existing uid) db i v fk =
      elim (Option-cases (find (session_is i.session_id) db.sessions)) [
        | inl gone ↦ ground (arith, find-absent session_key i.session_id alive db.sessions gone)
        | inr (s, found) ↦ ground (
          arith,
          find-Unique session_key i.session_id alive db.sessions s v found,
          fk i.session_id uid,
        )
      ]

  -- The transaction, which updates first and diagnoses afterwards, computes the checks in order:
  -- on every database with unique digests and session ids in which members are users.
  pub redeem_invite-redeem_in_order :
      (identity : RedeemIdentity) (db : Database)
      → UniqueInvites db
      → UniqueSessions db
      → MembersExist db
      → redeem_invite token_sha256 host token identity db ≡ redeem_in_order identity db
  unfolding redeem_in_order
  redeem_invite-redeem_in_order identity db u v fk =
      elim (Option-cases (find (invite_is sha) db.invite_tokens)) [
        | inl absent ↦ redeem_unknown identity db absent ∙ rw (redeem_in_order, absent)
        | inr (i, found) ↦
            redeem_known identity db i u found
            ∙ checks identity db i v fk
            ∙ rw (redeem_in_order, found)
      ]
