-- ===== src/Gateway/Targets.antt =====
-- crates/telepair-gateway/src/http.rs: an administrator reloads the target file. What reading and
-- parsing the file gives is an argument, and a digest is a number.
pub mod Keeps
use telepair.Base.{
  ℕ, Bool, not, true, false, Option, none, some, List, [], ◌∷◌, ◌++◌, String, if◌then◌else◌, ◌==◌,
  length, is_some,
}
use telepair.Base.Dict.{values}
use telepair.Core.Failure.{Error, Result, ok, err}
use telepair.Core.Records.{User}
use telepair.Hub.Sessions.{SessionEntry, Sessions, target_of, count_live_sessions_per_target}
use telepair.Targets.{Target, TargetEngine, from_config, find_target}
use telepair.Control.Audit.{AuditEntry}
use telepair.Gateway.World.{
  AppState, ApiError, ApiResult, Reply, grant, check, log, extract_user, require_admin,
}

-- The file: not there, not readable as YAML, or a list of targets with the digest of the bytes.
pub data TargetFile : Type 0 where
  absent unreadable : TargetFile
  listed : List Target → (sha256 : ℕ) → TargetFile

-- The `reason` of the answer.
pub data Reload : Type 0 where
  no_targets_path no_targets_file parse_error file_changed : Reload
  still_referenced : (names : List String) → Reload
  reloaded : (targets : ℕ) → Reload

-- The names of the sessions' targets that the engine lacks, one for each session. The answer counts
-- them by name.
unfoldable pub missing : TargetEngine → List SessionEntry → List String
missing engine [] = []
missing engine (e ∷ es) =
    let rest = missing engine es in
    if is_some (find_target (target_of e) engine) then rest else target_of e ∷ rest

abbrev pub differs : Option ℕ → ℕ → Bool
differs none sha = false
differs (some expected) sha = not (expected == sha)

-- `hub.count_live_sessions_per_target` drops the reservations that ran out.
abbrev pub kept_sessions : ℕ → ℕ → Sessions → Sessions
kept_sessions now ttl m = (count_live_sessions_per_target now ttl m).1

-- The end of the handler: the engine is stored unless it drops a target in use.
abbrev pub store_unless : User → TargetEngine → List String → AppState → Reply Reload
store_unless user engine [] w =
    grant (Reload.reloaded (length engine))
      (log (AuditEntry.target_reloaded user.id (length engine)) (record w { targets = engine }))
store_unless user engine (name ∷ names) w = grant (Reload.still_referenced (name ∷ names)) w

unfoldable pub swap_engine : (now ttl : ℕ) → User → TargetEngine → AppState → Reply Reload
swap_engine now ttl user engine w =
    let kept = kept_sessions now ttl w.hub in
    store_unless user engine (missing engine (values kept)) (record w { hub = kept })

abbrev pub parsed :
    (now ttl : ℕ) → User → Option ℕ → ℕ → Result TargetEngine → AppState → Reply Reload
parsed now ttl user expected sha (err e) w = grant Reload.parse_error w
parsed now ttl user expected sha (ok engine) w =
    if differs expected sha then grant Reload.file_changed w else swap_engine now ttl user engine w

unfoldable pub reload_file : (now ttl : ℕ) → User → Option ℕ → TargetFile → AppState → Reply Reload
reload_file now ttl user expected TargetFile.absent w = grant Reload.no_targets_file w
reload_file now ttl user expected TargetFile.unreadable w = grant Reload.parse_error w
reload_file now ttl user expected (TargetFile.listed targets sha) w =
    parsed now ttl user expected sha (from_config targets) w

abbrev pub reload_path :
    (now ttl : ℕ) → User → Option ℕ → Option TargetFile → AppState → Reply Reload
reload_path now ttl user expected none w = grant Reload.no_targets_path w
reload_path now ttl user expected (some file) w = reload_file now ttl user expected file w

-- `file` is there if the gateway was started with a path.
unfoldable pub reload_targets :
    (ℕ → ℕ)
    → (now ttl : ℕ) → (token expected : Option ℕ) → Option TargetFile
    → AppState
    → Reply Reload
reload_targets token_sha256 now ttl token expected file w =
    check (extract_user token_sha256 token w.database) w
      (λ user. check (require_admin user) w (λ admin. reload_path now ttl user expected file w))
