-- ===== src/Control/Sessions.antt =====
-- crates/telepair-control/src/session_service.rs: who may close and change a session, over the
-- store. Where another task may act between two statements, the database then is an argument.
pub mod Closing
pub mod Owned
use telepair.Base.{
  ℕ, ◌-◌, Bool, ◌&&◌, ◌||◌, not, Option, none, some, List, [], ◌∷◌, String, if◌then◌else◌, ◌==◌,
  ltb, is_some, map_option, true, false,
}
use telepair.Core.Failure.{Message, Error, Result, ok, err, ◌>>=◌}
use telepair.Core.Role.{Role}
use telepair.Core.Status.{InputMode, SessionStatus, CloseReason, is_active}
use telepair.Core.Records.{Session, User}
use telepair.Storage.{Database, Host}
use telepair.Storage.Sessions
use telepair.Storage.Sessions.{create_session_with_owner, get_session}
use telepair.Control.Audit.{AuditEntry, Outcome, failed, answered}

unfoldable pub create_session_with_user_target :
    Host → User → String → InputMode → Option ℕ → Database → Outcome Session
create_session_with_user_target host owner target_name input_mode user_target_id db =
    elim (create_session_with_owner host owner.id target_name input_mode user_target_id db) [
      | err e ↦ failed e db
      | ok (session, db') ↦ record {
        answer = ok session;
        database = db';
        audit =
            AuditEntry.session_created owner.id session.id target_name input_mode
            ∷ AuditEntry.participant_joined owner.id session.id Role.owner
            ∷ [];
      }
    ]

-- The difference of the instants is not negative, as the session was created before.
abbrev pub duration_s : ℕ → Option Session → Option ℕ
duration_s now pre = map_option (λ s. now - s.created_at) pre

unfoldable pub close_session :
    Host → ℕ → CloseReason → (actor : Option ℕ) → Database → Outcome (Unit {0})
close_session host session_id reason actor db =
    let pre = get_session session_id db in
    elim (Sessions.close_session host session_id reason db) [
      | err e ↦ failed e db
      | ok (u, db') ↦ record {
        answer = ok tt;
        database = db';
        audit = AuditEntry.session_closed actor session_id reason (duration_s host.now pre) ∷ [];
      }
    ]

unfoldable pub get_session_required : ℕ → Database → Result Session
get_session_required session_id db = elim (get_session session_id db) [
  | none ↦ err (Error.session_not_found session_id)
  | some s ↦ ok s
]

abbrev pub does_not_own : ℕ → ℕ → Error
does_not_own uid session_id = Error.permission_denied (
    Message.join (Message.about "user " uid " does not own")
      (Message.about " session " session_id ""))

-- A session that is gone by the time of the close counts as closed.
abbrev pub forgive_missing : Outcome (Unit {0}) → Outcome (Unit {0})
forgive_missing out = record out {
  answer = elim out.answer [
    | err (Error.session_not_found id) ↦ ok tt
    | err e ↦ err e
    | ok u ↦ ok u
  ];
}

abbrev pub close_reason_for : Bool → CloseReason
close_reason_for is_owner = if is_owner then CloseReason.owner else CloseReason.admin

-- `db'` is the database when the session is closed, after it was looked up in `db`.
unfoldable pub close_session_by_user : Host → User → ℕ → Database → Database → Outcome (Unit {0})
close_session_by_user host user session_id db db' = elim (get_session_required session_id db) [
  | err e ↦ failed e db'
  | ok session ↦
      let is_owner = session.owner_id == user.id in
      if not is_owner && not user.is_admin
      then failed (does_not_own user.id session_id) db'
      else if not (is_active session.status)
      then answered (ok tt) db'
      else forgive_missing
          (close_session host session_id (close_reason_for is_owner) (some user.id) db')
]

unfoldable pub close_stale_sessions : Host → CloseReason → Database → Outcome ℕ
close_stale_sessions host reason db =
    let (closed, db') = Sessions.close_stale_sessions host reason db in
    record {
      answer = ok closed;
      database = db';
      audit = if ltb 0 closed then AuditEntry.sessions_closed reason closed ∷ [] else [];
    }

unfoldable pub require_owner : User → ℕ → Database → Result Session
require_owner user session_id db = get_session_required session_id db >>= λ session.
    (if not (session.owner_id == user.id)
      then err (does_not_own user.id session_id)
      else ok session)

unfoldable pub require_active_owned : User → ℕ → Database → Result Session
require_active_owned user session_id db = require_owner user session_id db >>= λ session.
    (if not (is_active session.status) then err (Error.session_closed session_id) else ok session)
