-- ===== src/Gateway/Accounts.antt =====
-- crates/telepair-gateway/src/http.rs: the requests that take access away from an account.
pub mod Evicted
use telepair.Base.{ℕ, Bool, not, Option, none, some, String, if◌then◌else◌, ◌==◌}
use telepair.Core.Failure.{Message, Error, Result, ok, err}
use telepair.Core.Protocol.{EvictReason}
use telepair.Core.Records.{User}
use telepair.Storage.{Host}
use telepair.Hub.Sessions.{evict_user}
use telepair.Control.Audit.{Outcome}
use telepair.Control.Passwords
use telepair.Control.Passwords.{set_session_access}
use telepair.Gateway.World.{
  AppState, ApiError, ApiResult, Reply, refuse, grant, absorb, extract_user, require_admin, check,
  serve,
}

-- `hub.evict_user`
abbrev pub evict_everywhere : ℕ → ℕ → EvictReason → AppState → AppState
evict_everywhere now uid reason w = record w { hub = (evict_user now uid reason w.hub).1 }

-- An unknown account is not found.
abbrev pub access_error : Error → ApiError
access_error (Error.invalid_input m) = ApiError.bare 404
access_error e = ApiError.from e

-- `set_user_enabled` once the actor is known to be an administrator.
unfoldable pub set_access_as : Host → User → ℕ → Bool → AppState → Reply User
set_access_as host actor target enabled w =
    if actor.id == target
    then refuse (ApiError.with_message 400 "cannot change your own account's session access") w
    else serve (set_session_access host actor.id target enabled w.database) access_error w
        (λ updated w'. grant updated (
          if not enabled
          then evict_everywhere host.now target EvictReason.account_disabled w'
          else w'))

module _ (token_sha256 : ℕ → ℕ) where
  -- The path of the request holds a UUID.
  unfoldable pub set_user_enabled : Host → Option ℕ → ℕ → Bool → AppState → Reply User
  set_user_enabled host token target enabled w =
      check (extract_user token_sha256 token w.database) w (λ actor.
        check (require_admin actor) w (λ admin. set_access_as host actor target enabled w))

  -- A wrong password is not a wrong token: the client must not log out.
  abbrev pub password_error : Error → ApiError
  password_error (Error.auth m) = ApiError.with_message 400 "Current password is incorrect."
  password_error e = ApiError.from e

  module _ (verify_password : String → String → Option Bool)
      (hash_password : String → Option (Result String)) where
    unfoldable pub change_password_as : Host → User → String → String → AppState → Reply ℕ
    change_password_as host user current_password new_password w =
        serve
          (Passwords.change_password token_sha256 verify_password hash_password host user
            current_password new_password w.database)
          password_error w
          (λ new_token w'.
            grant new_token (evict_everywhere host.now user.id EvictReason.token_rotated w'))

    unfoldable pub change_password : Host → Option ℕ → String → String → AppState → Reply ℕ
    change_password host token current_password new_password w =
        check (extract_user token_sha256 token w.database) w
          (λ user. change_password_as host user current_password new_password w)
