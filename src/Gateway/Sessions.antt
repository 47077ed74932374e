-- ===== src/Gateway/Sessions.antt =====
-- crates/telepair-gateway/src/http.rs: a session is created and closed. A target identifier that is
-- the empty string counts as none, as in the code, and so is none here.
pub mod Created
use telepair.Base.{
  ℕ, Bool, ◌&&◌, not, true, false, Option, none, some, String, if◌then◌else◌, str_eq, unwrap_or,
}
use telepair.Core.Failure.{ok, err}
use telepair.Core.Status.{InputMode}
use telepair.Core.Records.{User, Session, UserTarget}
use telepair.Storage.{Host}
use telepair.Hub.Sessions.{reserve_target, stop_session}
use telepair.Targets.{Target, find_target}
use telepair.Control.Audit.{AuditEntry}
use telepair.Control.Sessions.{create_session_with_user_target, close_session_by_user}
use telepair.Control.UserTargets
use telepair.Gateway.World.{
  AppState, ApiError, ApiResult, Reply, refuse, grant, log, check, after, serve, extract_user,
  require_unscoped, require_session_enabled,
}

pub record CreateSessionRequest : Type 0 where
  pub target_name : Option String
  pub target_id : Option ℕ
  pub input_mode : Option InputMode

pub data TargetSelector : Type 0 where
  global : String → TargetSelector
  user : ℕ → TargetSelector

abbrev pub filled : Option String → Option String
filled none = none
filled (some name) = if str_eq name "" then none else some name

abbrev pub selector_of : Option String → Option ℕ → ApiResult TargetSelector
selector_of (some name) none = ApiResult.granted (TargetSelector.global name)
selector_of none (some id) = ApiResult.granted (TargetSelector.user id)
selector_of none none = ApiResult.refused (ApiError.bare 400)
selector_of (some name) (some id) = ApiResult.refused (ApiError.bare 400)

unfoldable pub pick_target_selector : CreateSessionRequest → ApiResult TargetSelector
pick_target_selector body = selector_of (filled body.target_name) body.target_id

-- The name, `admin_only` and the user target's identifier.
pub record Picked : Type 0 where
  pub target_name : String
  pub admin_only : Bool
  pub user_target_id : Option ℕ

abbrev pub picked_global : String → Option Target → ApiResult Picked
picked_global name none = ApiResult.refused (ApiError.bare 404)
picked_global name (some t) =
    ApiResult.granted
      (record { target_name = name; admin_only = t.admin_only; user_target_id = none })

abbrev pub picked_user : Option UserTarget → ApiResult Picked
picked_user none = ApiResult.refused (ApiError.bare 404)
picked_user (some t) =
    ApiResult.granted
      (record { target_name = t.name; admin_only = false; user_target_id = some t.id })

unfoldable pub pick_target : User → TargetSelector → AppState → ApiResult Picked
pick_target caller (TargetSelector.global name) w = picked_global name (find_target name w.targets)
pick_target caller (TargetSelector.user id) w =
    picked_user (UserTargets.get id caller.id w.database)

-- From the test of `admin_only` on.
unfoldable pub launch : Host → User → Option InputMode → Picked → AppState → Reply Session
launch host caller input_mode p w =
    if p.admin_only && not caller.is_admin
    then refuse (ApiError.bare 403)
        (log (AuditEntry.target_access_denied caller.id p.target_name) w)
    else serve
        (create_session_with_user_target host caller p.target_name
          (unwrap_or input_mode InputMode.multiplexed) p.user_target_id w.database)
        ApiError.from w
        (λ session w'.
          grant session
            (record w' { hub = reserve_target host.now session.id p.target_name w'.hub }))

-- From the body on.
unfoldable pub create_as : Host → User → CreateSessionRequest → AppState → Reply Session
create_as host caller body w = check (pick_target_selector body) w (λ selector.
    check (pick_target caller selector w) w (λ p. launch host caller body.input_mode p w))

unfoldable pub create_session :
    (ℕ → ℕ) → Host → (token : Option ℕ) → CreateSessionRequest → AppState → Reply Session
create_session token_sha256 host token body w =
    check (extract_user token_sha256 token w.database) w (λ caller.
      check (require_unscoped caller) w (λ unscoped.
        after (require_session_enabled caller "POST /api/sessions" none w)
          (λ u w'. create_as host caller body w')))

unfoldable pub close_session : (ℕ → ℕ) → Host → (token : Option ℕ) → ℕ → AppState → Reply (Unit {0})
close_session token_sha256 host token session_id w =
    check (extract_user token_sha256 token w.database) w (λ caller.
      after (require_session_enabled caller "DELETE /api/sessions/{id}" (some session_id) w)
        (λ u w'.
          serve (close_session_by_user host caller session_id w'.database w'.database) ApiError.from
            w' (λ v w''. grant tt (record w'' { hub = (stop_session session_id w''.hub).1 }))))
