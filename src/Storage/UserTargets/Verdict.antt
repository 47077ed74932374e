-- ===== src/Storage/UserTargets/Verdict.antt =====
-- The answers of update_user_target and delete_user_target in sqlite.rs, which are found by one
-- guarded statement, against the three checks that they stand for.
use telepair.Base.{
  ℕ, ◌≡◌, refl, Bool, true, not, Option, none, some, List, String, arith, if◌then◌else◌, ◌==◌,
  Option-cases, inl, inr, ◌&&◌,
}
use telepair.Base.Rows.{find, update_where, delete_where, find_holds}
use telepair.Base.Unique.{
  Unique, find-Unique, find-absent, find-update_where_self, find-delete_where_self,
}
use telepair.Core.Failure.{Error, ok, err}
use telepair.Core.Records.{Session, UserTarget}
use telepair.Storage.Db.{Database, Host}
use telepair.Storage.UserTargets.{
  target_is, in_use, mutable_target, edited, update_user_target, delete_user_target,
  find_user_target_by_id, classify_user_target_mutation_failure, target_not_owned, target_in_use,
}

-- What forbids a user to change a target.
abbrev pub objection : ℕ → ℕ → Database → Option UserTarget → Option Error
objection id uid db none = some (target_not_owned id)
objection id uid db (some t) =
    if not (t.user_id == uid)
    then some (target_not_owned id)
    else if in_use id db.sessions
    then some (target_in_use id)
    else none

-- The target with other texts, and the time of the change.
abbrev pub with_texts :
    (now : ℕ) (display command : String) (args : List String) (env : List (String × String))
    (tags : List String)
    → UserTarget
    → UserTarget
with_texts now display command args env tags t = record {
  id = t.id;
  user_id = t.user_id;
  name = t.name;
  display = display;
  command = command;
  args = args;
  env = env;
  tags = tags;
  created_at = t.created_at;
  updated_at = now;
}

abbrev id_of : UserTarget → ℕ
id_of t = t.id

-- What the clause of the two statements asks besides the identifier.
abbrev owned_and_free : ℕ → List Session → UserTarget → Bool
owned_and_free uid ss t = t.user_id == uid && not (in_use t.id ss)

abbrev owned_by : ℕ → UserTarget → Bool
owned_by uid t = t.user_id == uid

objection-refused :
    (id uid : ℕ) (db : Database) (e : Error)
    → Unique id_of db.user_targets
    → objection id uid db (find_user_target_by_id id db) ≡ some e
    → (find (mutable_target id uid db.sessions) db.user_targets ≡ none)
      × (classify_user_target_mutation_failure id uid db ≡ e)
unfolding find_user_target_by_id classify_user_target_mutation_failure
objection-refused id uid db e u h = elim (Option-cases (find (target_is id) db.user_targets)) [
  | inl absent ↦ ground (
    arith,
    find-absent id_of id (owned_and_free uid db.sessions) db.user_targets,
    find-absent id_of id (owned_by uid) db.user_targets,
  )
  | inr (t, found) ↦ ground (
    arith,
    find_holds (target_is id) db.user_targets t found,
    find-Unique id_of id (owned_and_free uid db.sessions) db.user_targets t u found,
    find-Unique id_of id (owned_by uid) db.user_targets t u found,
  )
]

objection-allowed :
    (id uid : ℕ) (db : Database)
    → Unique id_of db.user_targets
    → objection id uid db (find_user_target_by_id id db) ≡ none
    → (t : UserTarget) × (find (target_is id) db.user_targets ≡ some t)
      × (owned_and_free uid db.sessions t ≡ true)
      × (find (mutable_target id uid db.sessions) db.user_targets ≡ some t)
unfolding find_user_target_by_id
objection-allowed id uid db u h = elim (Option-cases (find (target_is id) db.user_targets)) [
  | inl absent ↦ ground arith
  | inr (t, found) ↦
      let same = find_holds (target_is id) db.user_targets t found in
      let right : owned_and_free uid db.sessions t ≡ true = ground arith in
      let clause =
        find-Unique id_of id (owned_and_free uid db.sessions) db.user_targets t u found in
      (t, found, right, ground arith)
]

-- Where no two targets have one identifier: an edit and a deletion are refused on the same grounds,
-- in the order: there is no such target or another user owns it, an active session runs on it. If
-- none applies, an edit answers the target with the new texts, which is then found, and after a
-- deletion there is no such target.
pub mutations_checked :
    (host : Host) (id uid : ℕ) (display command : String) (args : List String)
    (env : List (String × String)) (tags : List String) (db : Database)
    → Unique id_of db.user_targets
    → ((e : Error)
        → objection id uid db (find_user_target_by_id id db) ≡ some e
        → (update_user_target host id uid display command args env tags db ≡ err e)
          × (delete_user_target id uid db ≡ err e))
      × (objection id uid db (find_user_target_by_id id db) ≡ none
          → (t : UserTarget) × (find_user_target_by_id id db ≡ some t)
            × (edited_db : Database) × (update_user_target host id uid display command args env tags
                  db
                ≡ ok (with_texts host.now display command args env tags t, edited_db))
            × (find_user_target_by_id id edited_db
                ≡ some (with_texts host.now display command args env tags t))
            × (deleted_db : Database) × (delete_user_target id uid db ≡ ok (tt, deleted_db))
            × (find_user_target_by_id id deleted_db ≡ none))
unfolding find_user_target_by_id update_user_target delete_user_target
mutations_checked host id uid display command args env tags db u = (
  λ e h. let (missed, verdict) = objection-refused id uid db e u h in (ground arith, ground arith),
  λ h.
      let (t, found, right, hit) = objection-allowed id uid db u h in
      let change = edited host.now display command args env tags in
      let after =
        find-update_where_self id_of id (owned_and_free uid db.sessions) change db.user_targets t
          (λ r. refl) found right in
      let gone =
        find-delete_where_self id_of id (owned_and_free uid db.sessions) db.user_targets t u found
          right in
      let edited_db = record db {
        user_targets = update_where (mutable_target id uid db.sessions) change db.user_targets;
      } in
      let deleted_db = record db {
        user_targets = delete_where (mutable_target id uid db.sessions) db.user_targets;
      } in
      (t, found, edited_db, ground arith, after, deleted_db, ground arith, gone),
)
