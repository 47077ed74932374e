-- ===== src/Control/Redeem.antt =====
-- crates/telepair-control/src/invite_service.rs: the redemption of an invite, by a caller with an
-- account or by one who becomes a guest.
pub mod Granted
pub mod Guests
use telepair.Base.{
  ℕ, zero, suc, Bool, not, Option, none, some, List, [], ◌∷◌, String, if◌then◌else◌, ◌==◌, true,
  false,
}
use telepair.Core.Failure.{Message, Error, Result, ok, err, ◌>>=◌, is_unique_violation}
use telepair.Core.Role.{Role}
use telepair.Core.Status.{is_active}
use telepair.Core.Records.{User, InviteToken, RedeemIdentity, RedeemOutcome}
use telepair.Storage.{Database, Host}
use telepair.Storage.Sessions.{find_active_participant_role}
use telepair.Storage.Invites.{redeem_invite, find_invite}
use telepair.Control.Audit.{AuditEntry, Outcome, failed, answered}
use telepair.Control.Sessions.{get_session_required}

abbrev pub guest_name_max_attempts : ℕ
guest_name_max_attempts = 5

pub record RedeemResult : Type 0 where
  pub session_id : ℕ
  pub role : Role
  pub issued_token : Option ℕ

abbrev pub exhausted : Error
exhausted = Error.internal (Message.text "exhausted guest name retries")

abbrev pub redeemed : Bool → Database → Result (RedeemOutcome × Database) → Outcome RedeemResult
redeemed as_guest db (err e) = failed e db
redeemed as_guest db (ok (out, db')) = record {
  answer = ok (record {
    session_id = out.invite.session_id;
    role = out.invite.role;
    issued_token = out.issued_token;
  });
  database = db';
  audit =
      if not out.was_already_member
      then AuditEntry.invite_redeemed out.user_id out.invite.session_id out.invite.token_sha256
          out.invite.role as_guest
        ∷ AuditEntry.participant_joined out.user_id out.invite.session_id out.invite.role
        ∷ []
      else [];
}

-- A scoped guest who asks for another session.
abbrev pub strays : Option ℕ → ℕ → Bool
strays none session_id = false
strays (some scope) session_id = not (session_id == scope)

module _ (token_sha256 : ℕ → ℕ) where
  -- The attempts to find a guest name that is free. Attempt `k` from the end draws `draws k` from
  -- the host, and its name; `last` is the error of the attempt before.
  unfoldable pub redeem_as_guest :
      ℕ → (ℕ → Host × String) → ℕ → Error → Database → Result (RedeemOutcome × Database)
  redeem_as_guest zero draws token last db = err last
  redeem_as_guest (suc k) draws token last db =
      elim (redeem_invite token_sha256 (draws k).0 token (RedeemIdentity.new_guest (draws k).1)
        db) [
          | ok out ↦ ok out
          | err e ↦ elim (is_unique_violation e) [
            | true ↦ redeem_as_guest k draws token e db
            | false ↦ err e
          ]
        ]

  -- The preview of the invite and the look-up of its session.
  unfoldable pub preview : ℕ → Database → Result InviteToken
  preview token db = find_invite token_sha256 token db >>= λ invite.
      get_session_required invite.session_id db >>= λ session.
      (if not (is_active session.status)
        then err (Error.session_closed invite.session_id)
        else ok invite)

  -- A caller with an account. The scope is compared before the session is looked up.
  unfoldable pub redeem_existing : Host → User → ℕ → Database → Outcome RedeemResult
  redeem_existing host user token db = elim (find_invite token_sha256 token db) [
    | err e ↦ failed e db
    | ok invite ↦
        if strays user.scoped_session_id invite.session_id
        then failed
            (Error.permission_denied
              (Message.text "scoped guest cannot redeem invite for a different session"))
            db
        else (elim (preview token db) [
          | err e ↦ failed e db
          | ok i ↦ elim (find_active_participant_role i.session_id user.id db) [
            | some role ↦
                answered
                  (ok (record { session_id = i.session_id; role = role; issued_token = none })) db
            | none ↦
                redeemed false db
                  (redeem_invite token_sha256 host token (RedeemIdentity.existing user.id) db)
          ]
        ])
  ]

  unfoldable pub redeem_new : (ℕ → Host × String) → ℕ → Database → Outcome RedeemResult
  redeem_new draws token db = elim (preview token db) [
    | err e ↦ failed e db
    | ok i ↦ redeemed true db (redeem_as_guest guest_name_max_attempts draws token exhausted db)
  ]
