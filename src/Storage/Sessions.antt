-- ===== src/Storage/Sessions.antt =====
-- crates/telepair-core/src/storage/sqlite.rs: sessions and their participants.
pub mod Closing
pub mod Joining
pub mod Stale
use telepair.Base.{
  ℕ, Bool, ◌&&◌, ◌||◌, false, not, Option, none, some, List, [], ◌∷◌, map, String, if◌then◌else◌,
  ◌==◌, length, map_option,
}
use telepair.Base.Rows.{find, select_where, update_where, exists_where}
use telepair.Core.Failure.{Fault, Error, Result, ok, err, ◌>>=◌}
use telepair.Core.Role.{Role}
use telepair.Core.Status.{InputMode, SessionStatus, CloseReason, is_active}
use telepair.Core.Records.{Session, Participant}
use telepair.Storage.Db.{Database, Host, is_null, user_id_is}

abbrev pub session_is : ℕ → Session → Bool
session_is id s = s.id == id

-- `id = ? AND status = 'active'`
abbrev pub open_session : ℕ → Session → Bool
open_session id s = s.id == id && is_active s.status

abbrev pub has_session : ℕ → List Session → Bool
has_session id ss = exists_where (session_is id) ss

abbrev pub session_alive : ℕ → List Session → Bool
session_alive id ss = exists_where (open_session id) ss

-- The primary key of `participants`.
abbrev pub participant_is : ℕ → ℕ → Participant → Bool
participant_is sid uid p = p.session_id == sid && p.user_id == uid

-- `left_at IS NULL` besides the key.
abbrev pub present_participant : ℕ → ℕ → Participant → Bool
present_participant sid uid p = participant_is sid uid p && is_null p.left_at

unfoldable pub create_session_with_owner :
    Host → ℕ → String → InputMode → Option ℕ → Database → Result (Session × Database)
create_session_with_owner host owner_id target_name input_mode user_target_id db =
    if has_session host.nanoid db.sessions
    then err (Error.storage Fault.unique_violation)
    else if not (exists_where (user_id_is owner_id) db.users)
    then err (Error.storage Fault.other_fault)
    else if exists_where (participant_is host.nanoid owner_id) db.participants
    then err (Error.storage Fault.unique_violation)
    else ok (
      session,
      record db { sessions = session ∷ db.sessions; participants = owner ∷ db.participants },
    )
  where
    session : Session
    session = record {
      id = host.nanoid;
      owner_id = owner_id;
      target_name = target_name;
      input_mode = input_mode;
      status = SessionStatus.active;
      created_at = host.now;
      closed_at = none;
      closed_reason = none;
      user_target_id = user_target_id;
    }

    owner : Participant
    owner = record {
      session_id = host.nanoid;
      user_id = owner_id;
      role = Role.owner;
      joined_at = host.now;
      left_at = none;
    }

unfoldable pub get_session : ℕ → Database → Option Session
get_session id db = find (session_is id) db.sessions

-- `SET status = 'closed', closed_at = ?, closed_reason = ?`
abbrev pub closed_row : ℕ → CloseReason → Session → Session
closed_row now reason s = record s {
  status = SessionStatus.closed;
  closed_at = some now;
  closed_reason = some reason;
}

-- `SET left_at = ?`
abbrev pub left_row : ℕ → Participant → Participant
left_row now p = record p { left_at = some now }

unfoldable pub close_session : Host → ℕ → CloseReason → Database → Result (Unit {0} × Database)
close_session host id reason db =
    if session_alive id db.sessions
    then ok (
      tt,
      record db {
        sessions = update_where (open_session id) (closed_row host.now reason) db.sessions;
        participants =
            update_where (λ p. p.session_id == id && is_null p.left_at) (left_row host.now)
              db.participants;
      },
    )
    else err (Error.session_not_found id)

abbrev pub active_row : Session → Bool
active_row s = is_active s.status

-- `session_id IN (…)`
unfoldable pub contains_id : List ℕ → ℕ → Bool
contains_id [] id = false
contains_id (x ∷ xs) id = x == id || contains_id xs id

-- The result is the number of sessions closed.
unfoldable pub close_stale_sessions : Host → CloseReason → Database → ℕ × Database
close_stale_sessions host reason db =
    let closed_ids = map (λ (s : Session). s.id) (select_where active_row db.sessions) in
    (
      length closed_ids,
      record db {
        sessions = update_where active_row (closed_row host.now reason) db.sessions;
        participants =
            update_where (λ p. is_null p.left_at && contains_id closed_ids p.session_id)
              (left_row host.now) db.participants;
      },
    )

-- The `INSERT … ON CONFLICT (session_id, user_id) DO UPDATE` that `upsert_participant` and
-- `redeem_invite` share. A foreign key is checked on the insert.
unfoldable pub upsert_row : ℕ → ℕ → Role → ℕ → Database → Result Database
upsert_row sid uid role now db =
    if exists_where (participant_is sid uid) db.participants
    then ok (record db {
      participants =
          update_where (participant_is sid uid) (λ p. record p { role = role; left_at = none })
            db.participants;
    })
    else if has_session sid db.sessions && exists_where (user_id_is uid) db.users
    then ok (record db {
      participants =
          record { session_id = sid; user_id = uid; role = role; joined_at = now; left_at = none }
          ∷ db.participants;
    })
    else err (Error.storage Fault.other_fault)

unfoldable pub upsert_participant : Host → ℕ → ℕ → Role → Database → Result (Participant × Database)
upsert_participant host sid uid role db = upsert_row sid uid role host.now db >>= λ db'. ok (
  record { session_id = sid; user_id = uid; role = role; joined_at = host.now; left_at = none },
  db',
)

unfoldable pub list_participants : ℕ → Database → List Participant
list_participants sid db =
    select_where (λ p. p.session_id == sid && is_null p.left_at) db.participants

-- The join of a present participant with its active session.
unfoldable pub find_active_participant_role : ℕ → ℕ → Database → Option Role
find_active_participant_role sid uid db =
    map_option (λ p. p.role)
      (find (λ p. present_participant sid uid p && session_alive p.session_id db.sessions)
        db.participants)
