-- ===== src/Storage/UserTargets/Pinned.antt =====
-- What a running session is promised about the target of sqlite.rs that it was launched from.
use telepair.Base.{ℕ, ◌≡◌, refl, true, false, some, List, [], ◌∷◌, String, arith}
use telepair.Base.Rows.{find, find-update_where_other, find-delete_where_other}
use telepair.Core.Failure.{Result, ok, err}
use telepair.Core.Records.{Session, UserTarget}
use telepair.Storage.Db.{Database, Host}
use telepair.Storage.UserTargets.{
  target_is, in_use, mutable_target, edited, update_user_target, delete_user_target,
  find_user_target_by_id, create_user_target, CreateUserTargetParams,
}

-- A call on the targets, of whatever user.
pub data Edit : Type 0 where
  create : Host → CreateUserTargetParams → Edit
  update :
      Host
      → (id uid : ℕ) (display command : String) (args : List String) (env : List (String × String))
        (tags : List String)
      → Edit
  delete : (id uid : ℕ) → Edit

-- The database after a call; an error leaves it.
abbrev pub database_after : {A : Type 0} → Database → Result (A × Database) → Database
database_after db (ok (a, db')) = db'
database_after db (err e) = db

abbrev pub edit : Edit → Database → Database
edit (Edit.create host params) db = database_after db (create_user_target host params db)
edit (Edit.update host id uid display command args env tags) db =
    database_after db (update_user_target host id uid display command args env tags db)
edit (Edit.delete id uid) db = database_after db (delete_user_target id uid db)

unfoldable pub edit_all : List Edit → Database → Database
edit_all [] db = db
edit_all (e ∷ es) db = edit_all es (edit e db)

in_use-not_mutable :
    (id other uid : ℕ) (ss : List Session) (t : UserTarget)
    → in_use id ss ≡ true
    → target_is id t ≡ true
    → mutable_target other uid ss t ≡ false
in_use-not_mutable id other uid ss t busy same = ground arith

module _ (id : ℕ) (t : UserTarget) where
  -- The target is there, and an active session runs on it.
  abbrev pub Pinned : Database → Type 0
  Pinned db = (find_user_target_by_id id db ≡ some t) × (in_use id db.sessions ≡ true)

  edit-Pinned : (e : Edit) (db : Database) → Pinned db → Pinned (edit e db)
  unfolding find_user_target_by_id create_user_target update_user_target delete_user_target find
  edit-Pinned (Edit.create host params) db h = ground arith
  edit-Pinned (Edit.update host other uid display command args env tags) db h = ground (
    arith,
    find-update_where_other (target_is id) (mutable_target other uid db.sessions)
        (edited host.now display command args env tags) db.user_targets (λ r. refl)
        (λ r. in_use-not_mutable id other uid db.sessions r h.1),
  )
  edit-Pinned (Edit.delete other uid) db h = ground (
    arith,
    find-delete_where_other (target_is id) (mutable_target other uid db.sessions) db.user_targets
        (λ r. in_use-not_mutable id other uid db.sessions r h.1),
  )

  -- As long as an active session runs on a target, the target stays exactly what it is, whatever
  -- targets are created, edited and deleted by whatever users.
  pub edit_all-Pinned : (es : List Edit) (db : Database) → Pinned db → Pinned (edit_all es db)
  unfolding edit_all
  edit_all-Pinned [] db h = h
  edit_all-Pinned (e ∷ es) db h = edit_all-Pinned es (edit e db) (edit-Pinned e db h)
