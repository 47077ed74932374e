-- ===== src/Control/UserTargets.antt =====
-- crates/telepair-control/src/user_target_service.rs: the targets that users own.
use telepair.Base.{
  ℕ, Bool, ◌&&◌, ◌||◌, true, Option, none, some, List, String, if◌then◌else◌, ◌==◌, leb,
}
use Prim.Native.Char.{code}
use telepair.Core.Failure.{Message, Error, Result, err}
use telepair.Core.Records.{UserTarget}
use telepair.Storage.{Database, Host}
use telepair.Storage.UserTargets.{
  create_user_target, update_user_target, delete_user_target, find_user_target_by_id,
}

pub record CreateTargetParams : Type 0 where
  pub name : String
  pub display : String
  pub command : String
  pub args : List String
  pub env : List (String × String)
  pub tags : List String

pub record UpdateTargetParams : Type 0 where
  pub display : String
  pub command : String
  pub args : List String
  pub env : List (String × String)
  pub tags : List String

-- `char::is_whitespace`, by code point.
abbrev pub is_whitespace : ℕ → Bool
is_whitespace c =
    leb 9 c && leb c 13
    || c == 32
    || c == 133
    || c == 160
    || c == 5760
    || leb 8192 c && leb c 8202
    || c == 8232
    || c == 8233
    || c == 8239
    || c == 8287
    || c == 12288

-- `trim().is_empty()`
unfoldable pub is_blank : String → Bool
is_blank String.[] = true
is_blank (String.◌∷◌ c s) = is_whitespace (code c) && is_blank s

abbrev pub required {ℓ} : {A : Type ℓ} → String → Result A
required field = err (Error.invalid_input (Message.quoting "" field " is required"))

unfoldable pub create :
    Host → (user_id : ℕ) → CreateTargetParams → Database → Result (UserTarget × Database)
create host user_id params db =
    if is_blank params.name
    then required "name"
    else if is_blank params.display
    then required "display"
    else if is_blank params.command
    then required "command"
    else create_user_target host
        (record {
          user_id = user_id;
          name = params.name;
          display = params.display;
          command = params.command;
          args = params.args;
          env = params.env;
          tags = params.tags;
        })
        db

unfoldable pub update :
    Host → (id user_id : ℕ) → UpdateTargetParams → Database → Result (UserTarget × Database)
update host id user_id params db =
    if is_blank params.display
    then required "display"
    else if is_blank params.command
    then required "command"
    else update_user_target host id user_id params.display params.command params.args params.env
        params.tags db

unfoldable pub delete : (id user_id : ℕ) → Database → Result (Unit {0} × Database)
delete id user_id db = delete_user_target id user_id db

-- `target.filter(|t| t.user_id == user_id)`
abbrev pub of_user : ℕ → Option UserTarget → Option UserTarget
of_user user_id none = none
of_user user_id (some t) = if t.user_id == user_id then some t else none

unfoldable pub get : (id user_id : ℕ) → Database → Option UserTarget
get id user_id db = of_user user_id (find_user_target_by_id id db)

-- What the pseudo-terminal runs.
pub record Launch : Type 0 where
  pub command : String
  pub args : List String
  pub env : List (String × String)

abbrev pub launch_of : Option UserTarget → Option Launch
launch_of none = none
launch_of (some t) = some (record { command = t.command; args = t.args; env = t.env })

unfoldable pub resolve_by_id : ℕ → Database → Option Launch
resolve_by_id id db = launch_of (find_user_target_by_id id db)
