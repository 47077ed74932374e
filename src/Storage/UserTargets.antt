-- ===== src/Storage/UserTargets.antt =====
-- crates/telepair-core/src/storage/sqlite.rs: the targets that users own. A session that is active
-- pins the target that it was launched from.
pub mod Verdict
pub mod Pinned
use telepair.Base.{
  ℕ, ◌≡◌, refl, Bool, ◌&&◌, ◌||◌, not, true, false, Option, none, some, List, ◌∷◌, String,
  if◌then◌else◌, ◌==◌, str_eq,
}
use telepair.Base.Rows.{find, update_where, delete_where, exists_where}
use telepair.Core.Failure.{Message, Fault, Error, Result, ok, err}
use telepair.Core.Status.{is_active}
use telepair.Core.Records.{Session, UserTarget}
use telepair.Storage.Db.{Database, Host, user_id_is}

pub record CreateUserTargetParams : Type 0 where
  pub user_id : ℕ
  pub name : String
  pub display : String
  pub command : String
  pub args : List String
  pub env : List (String × String)
  pub tags : List String

abbrev pub target_is : ℕ → UserTarget → Bool
target_is id t = t.id == id

-- `UNIQUE (user_id, name)`
abbrev pub same_name : ℕ → String → UserTarget → Bool
same_name uid name t = t.user_id == uid && str_eq t.name name

abbrev pub launched_from : ℕ → Option ℕ → Bool
launched_from id none = false
launched_from id (some t) = t == id

-- `sessions.user_target_id = user_targets.id AND sessions.status = 'active'`
abbrev pub uses_target : ℕ → Session → Bool
uses_target id s = launched_from id s.user_target_id && is_active s.status

abbrev pub in_use : ℕ → List Session → Bool
in_use id ss = exists_where (uses_target id) ss

-- `WHERE id = ? AND user_id = ?`
abbrev pub owned_target : ℕ → ℕ → UserTarget → Bool
owned_target id uid t = t.id == id && t.user_id == uid

-- The clause of the UPDATE and of the DELETE.
abbrev pub mutable_target : ℕ → ℕ → List Session → UserTarget → Bool
mutable_target id uid ss t = t.id == id && (t.user_id == uid && not (in_use t.id ss))

abbrev pub target_not_owned : ℕ → Error
target_not_owned id =
    Error.permission_denied (Message.about "target " id " not found or not owned by caller")

abbrev pub target_in_use : ℕ → Error
target_in_use id =
    Error.conflict
      (Message.about "target " id " is in use by an active session; close the session first")

unfoldable pub create_user_target :
    Host → CreateUserTargetParams → Database → Result (UserTarget × Database)
create_user_target host params db =
    if exists_where (target_is host.nanoid) db.user_targets
      || exists_where (same_name params.user_id params.name) db.user_targets
    then err (Error.conflict (Message.quoting "target name '" params.name "' already exists"))
    else if not (exists_where (user_id_is params.user_id) db.users)
    then err (Error.storage Fault.other_fault)
    else ok (row, record db { user_targets = row ∷ db.user_targets })
  where
    row : UserTarget
    row = record {
      id = host.nanoid;
      user_id = params.user_id;
      name = params.name;
      display = params.display;
      command = params.command;
      args = params.args;
      env = params.env;
      tags = params.tags;
      created_at = host.now;
      updated_at = host.now;
    }

unfoldable pub classify_user_target_mutation_failure : ℕ → ℕ → Database → Error
classify_user_target_mutation_failure id uid db =
    if not (exists_where (owned_target id uid) db.user_targets)
    then target_not_owned id
    else target_in_use id

unfoldable pub find_user_target_by_id : ℕ → Database → Option UserTarget
find_user_target_by_id id db = find (target_is id) db.user_targets

abbrev pub edited :
    (now : ℕ) (display command : String) (args : List String) (env : List (String × String))
    (tags : List String)
    → UserTarget
    → UserTarget
edited now display command args env tags t = record t {
  display = display;
  command = command;
  args = args;
  env = env;
  tags = tags;
  updated_at = now;
}

abbrev pub found_after_update : Database → Option UserTarget → Result (UserTarget × Database)
found_after_update db none = err (Error.internal (Message.text "target disappeared after update"))
found_after_update db (some t) = ok (t, db)

unfoldable pub update_user_target :
    Host
    → (id uid : ℕ) (display command : String) (args : List String) (env : List (String × String))
      (tags : List String)
    → Database
    → Result (UserTarget × Database)
update_user_target host id uid display command args env tags db =
    if exists_where (mutable_target id uid db.sessions) db.user_targets
    then (let db' = record db {
      user_targets =
          update_where (mutable_target id uid db.sessions)
            (edited host.now display command args env tags) db.user_targets;
    } in
        found_after_update db' (find_user_target_by_id id db'))
    else err (classify_user_target_mutation_failure id uid db)

unfoldable pub delete_user_target : ℕ → ℕ → Database → Result (Unit {0} × Database)
delete_user_target id uid db =
    if exists_where (mutable_target id uid db.sessions) db.user_targets
    then ok (
      tt,
      record db { user_targets = delete_where (mutable_target id uid db.sessions) db.user_targets },
    )
    else err (classify_user_target_mutation_failure id uid db)
