-- ===== src/Control/Invites.antt =====
-- crates/telepair-control/src/invite_service.rs: invites to a session. An integer of the request
-- that is negative is refused like zero, so they are natural numbers here, and instants are in
-- seconds. `duration_max` is the longest `TimeDelta` of the chrono crate in seconds: its constructors
-- panic beyond, which ends the request.
pub mod Ttl
use telepair.Base.{
  ℕ, ◌+◌, ◌-◌, ◌*◌, Bool, ◌||◌, not, Option, none, some, List, [], ◌∷◌, map, String, if◌then◌else◌,
  ◌==◌, ltb, leb, true, false, str_eq,
}
use telepair.Core.Failure.{Message, Error, Result, ok, err, ◌>>=◌, is_unique_violation}
use telepair.Core.Role.{Role, role_eq}
use telepair.Core.Status.{is_active}
use telepair.Core.Records.{Session, User, InviteToken}
use telepair.Storage.{Database, Host}
use telepair.Storage.Sessions.{find_active_participant_role}
use telepair.Storage.Invites.{
  create_invite, redeem_invite, find_invite, find_invite_by_sha256, revoke_invite,
  list_invites_for_session,
}
use telepair.Control.Audit.{AuditEntry, Outcome, failed, answered}
use telepair.Control.Sessions.{require_owner, require_active_owned, get_session_required}

abbrev pub max_invite_uses : ℕ
max_invite_uses = 100

abbrev pub max_invite_ttl_minutes : ℕ
max_invite_ttl_minutes = 7 * 24 * 60

-- `Duration::minutes(MAX_INVITE_TTL_MINUTES)`
abbrev pub max_ttl : ℕ
max_ttl = max_invite_ttl_minutes * 60

pub record CreateInviteParams : Type 0 where
  pub role : Role
  pub max_uses : ℕ
  pub expires_in_minutes : Option ℕ
  pub expires_in_secs : Option ℕ
  pub expires_at : Option ℕ

pub record CreateInviteResult : Type 0 where
  pub session_id : ℕ
  pub token : ℕ
  pub role : Role
  pub max_uses : ℕ
  pub expires_at : Option ℕ

pub record InviteSummary : Type 0 where
  pub token_sha256 : ℕ
  pub session_id : ℕ
  pub role : Role
  pub max_uses : ℕ
  pub used_count : ℕ
  pub remaining_uses : ℕ
  pub expires_at : Option ℕ
  pub created_at : Option ℕ

unfoldable pub from_token : InviteToken → InviteSummary
from_token t = record {
  token_sha256 = t.token_sha256;
  session_id = t.session_id;
  role = t.role;
  max_uses = t.max_uses;
  used_count = t.used_count;
  remaining_uses = t.max_uses - t.used_count;
  expires_at = t.expires_at;
  created_at = t.created_at;
}

-- The expiry that a request resolves to.
pub data Expiry : Type 0 where
  refused : Message → Expiry
  panicked : Expiry
  resolved : Option ℕ → Expiry

-- `Duration::seconds(secs).min(max_ttl)` from now.
abbrev pub clamped : ℕ → ℕ → ℕ → Expiry
clamped duration_max now secs =
    if ltb duration_max secs
    then Expiry.panicked
    else Expiry.resolved (some (now + (if leb secs max_ttl then secs else max_ttl)))

abbrev pub resolve_minutes : ℕ → ℕ → Option ℕ → Expiry
resolve_minutes duration_max now none = Expiry.resolved none
resolve_minutes duration_max now (some minutes) =
    if minutes == 0
    then Expiry.refused (Message.text "expires_in_minutes must be positive")
    else clamped duration_max now (minutes * 60)

abbrev pub resolve_relative : ℕ → ℕ → Option ℕ → Option ℕ → Expiry
resolve_relative duration_max now none minutes = resolve_minutes duration_max now minutes
resolve_relative duration_max now (some secs) minutes =
    if secs == 0
    then Expiry.refused (Message.text "expires_in_secs must be positive")
    else clamped duration_max now secs

-- The part of `create` that finds the expiry.
abbrev pub resolve_absolute : ℕ → ℕ → Option ℕ → Option ℕ → Option ℕ → Expiry
resolve_absolute duration_max now (some at) secs minutes =
    if leb at now
    then Expiry.refused (Message.text "expires_at must be in the future")
    else if ltb (now + max_ttl) at
    then Expiry.refused
        (Message.about "expires_at must not exceed " max_invite_ttl_minutes " minutes from now")
    else Expiry.resolved (some at)
resolve_absolute duration_max now none secs minutes = resolve_relative duration_max now secs minutes

unfoldable pub resolve_expiry : ℕ → ℕ → CreateInviteParams → Expiry
resolve_expiry duration_max now params =
    resolve_absolute duration_max now params.expires_at params.expires_in_secs
      params.expires_in_minutes

module _ (token_sha256 : ℕ → ℕ) where
  -- `create` once the expiry is found.
  unfoldable pub mint :
      Host → User → ℕ → CreateInviteParams → Option ℕ → Database → Outcome CreateInviteResult
  mint host owner session_id params expires_at db =
      elim (create_invite token_sha256 host session_id params.role params.max_uses expires_at db) [
        | err e ↦ failed e db
        | ok (invite, raw_token, db') ↦ record {
          answer = ok (record {
            session_id = session_id;
            token = raw_token;
            role = invite.role;
            max_uses = invite.max_uses;
            expires_at = invite.expires_at;
          });
          database = db';
          audit =
              AuditEntry.invite_minted owner.id session_id invite.token_sha256 invite.role
                invite.max_uses invite.expires_at
              ∷ [];
        }
      ]

  -- `none` if the request panics.
  unfoldable pub create :
      ℕ → Host → User → ℕ → CreateInviteParams → Database → Option (Outcome CreateInviteResult)
  create duration_max host owner session_id params db =
      elim (require_active_owned owner session_id db) [
        | err e ↦ some (failed e db)
        | ok session ↦
            if role_eq params.role Role.owner
            then some
                (failed (Error.invalid_input (Message.text "cannot invite with Owner role")) db)
            else if ltb params.max_uses 1 || ltb max_invite_uses params.max_uses
            then some (
                failed
                  (Error.invalid_input
                    (Message.about "max_uses must be between 1 and " max_invite_uses ""))
                  db)
            else (elim (resolve_expiry duration_max host.now params) [
              | Expiry.refused m ↦ some (failed (Error.invalid_input m) db)
              | Expiry.panicked ↦ none
              | Expiry.resolved expires_at ↦ some (mint host owner session_id params expires_at db)
            ])
      ]

unfoldable pub list_for_session : User → ℕ → Database → Result (List InviteSummary)
list_for_session owner session_id db = require_owner owner session_id db >>= λ session.
    ok (map from_token (list_invites_for_session session_id db))

abbrev pub of_session : ℕ → Option InviteToken → Option InviteToken
of_session session_id none = none
of_session session_id (some i) = if i.session_id == session_id then some i else none

unfoldable pub revoke : User → ℕ → ℕ → Database → Outcome (Unit {0})
revoke owner session_id token_sha256 db = elim (require_owner owner session_id db) [
  | err e ↦ failed e db
  | ok session ↦ elim (of_session session_id (find_invite_by_sha256 token_sha256 db)) [
    | none ↦ answered (ok tt) db
    | some target ↦ record {
      answer = ok tt;
      database = revoke_invite target.token_sha256 db;
      audit = AuditEntry.invite_revoked owner.id session_id target.token_sha256 target.role ∷ [];
    }
  ]
]
