-- ===== src/Gateway/Roles.antt =====
-- crates/telepair-gateway/src/http.rs: the owner of a session changes the role of a participant, in
-- the store and in the hub.
pub mod Changed
pub mod Shown
use telepair.Base.{ℕ, Option, none, some, String, if◌then◌else◌, ◌==◌, false}
use telepair.Core.Failure.{Result, ok, err}
use telepair.Core.Role.{Role, role_eq}
use telepair.Core.Records.{User, Participant}
use telepair.Storage.{Database, Host}
use telepair.Storage.Sessions.{find_active_participant_role, upsert_participant}
use telepair.Hub.Live
use telepair.Hub.Sessions.{with_live}
use telepair.Control.Audit.{AuditEntry}
use telepair.Control.Sessions.{require_active_owned}
use telepair.Gateway.World.{
  AppState, ApiError, ApiResult, Reply, refuse, grant, lift, log, extract_user, check, after,
  require_session_enabled,
}

-- The path of the request holds a UUID, or not.
abbrev pub parse_uuid : Option ℕ → ApiResult ℕ
parse_uuid none = ApiResult.refused (ApiError.bare 400)
parse_uuid (some uid) = ApiResult.granted uid

module _ (host : Host) (user : User) (session_id : ℕ) (new_role : Role) where
  abbrev pub persisted : ℕ → Role → Result (Participant × Database) → AppState → Reply (Unit {0})
  persisted uid old_role (err e) w = refuse (ApiError.from e) w
  persisted uid old_role (ok (p, db)) w = grant tt (
      log (AuditEntry.participant_role_changed user.id session_id uid old_role new_role) (record w {
        database = db;
        hub = (with_live false (Live.update_participant_role uid new_role) session_id w.hub).1;
      }))

  -- With the role in the store, if the target is in the session.
  unfoldable pub replace_role : ℕ → Option Role → AppState → Reply (Unit {0})
  replace_role uid none w = refuse (ApiError.bare 404) w
  replace_role uid (some old_role) w =
      if role_eq old_role new_role
      then grant tt w
      else persisted uid old_role (upsert_participant host session_id uid new_role w.database) w

  unfoldable pub change_role : ℕ → AppState → Reply (Unit {0})
  change_role uid w =
      if uid == user.id
      then refuse (ApiError.bare 400) w
      else if role_eq new_role Role.owner
      then refuse (ApiError.bare 400) w
      else replace_role uid (find_active_participant_role session_id uid w.database) w

  -- The request of a known user who may use sessions.
  unfoldable pub update_role_as : Option ℕ → AppState → Reply (Unit {0})
  update_role_as target w =
      check (lift (require_active_owned user session_id w.database)) w
        (λ session. check (parse_uuid target) w (λ uid. change_role uid w))

unfoldable pub update_participant_role :
    (ℕ → ℕ)
    → Host
    → (token : Option ℕ) (session_id : ℕ) (target : Option ℕ) → Role
    → AppState
    → Reply (Unit {0})
update_participant_role token_sha256 host token session_id target new_role w =
    check (extract_user token_sha256 token w.database) w (λ user.
      after
        (require_session_enabled user "PUT /api/sessions/{id}/participants/{user_id}/role"
          (some session_id) w)
        (λ u w'. update_role_as host user session_id new_role target w'))
