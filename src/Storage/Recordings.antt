-- ===== src/Storage/Recordings.antt =====
-- crates/telepair-core/src/storage/sqlite.rs: recordings and the links that share them.
pub mod Active
pub mod Shares
use telepair.Base.{
  ℕ, ◌+◌, Bool, ◌&&◌, ◌||◌, true, false, not, Option, none, some, List, [], ◌∷◌, String,
  if◌then◌else◌, ◌==◌, ltb,
}
use telepair.Base.Rows.{find, select_where, order_by, update_where, delete_where, exists_where}
use telepair.Core.Failure.{Message, Fault, Error, Result, ok, err}
use telepair.Core.Status.{RecordingStatus, is_recording}
use telepair.Core.Records.{RecordingRow, RecordingShareRow}
use telepair.Storage.Db.{Database, Host, unexpired, user_id_is}
use telepair.Storage.Sessions.{has_session}

abbrev pub recording_is : ℕ → RecordingRow → Bool
recording_is id r = r.id == id

-- `session_id = ? AND status = 'recording'`, which is also the partial unique index.
abbrev pub active_in : ℕ → RecordingRow → Bool
active_in sid r = r.session_id == sid && is_recording r.status

unfoldable pub create_recording :
    Host → ℕ → ℕ → ℕ → ℕ → ℕ → String → Option ℕ → Database → Result (RecordingRow × Database)
create_recording host id session_id created_by width height file_path expires_at db =
    if exists_where (recording_is id) db.recordings
      || exists_where (active_in session_id) db.recordings
    then err
        (Error.conflict (Message.about "session " session_id " already has an active recording"))
    else if not (has_session session_id db.sessions)
        || not (exists_where (user_id_is created_by) db.users)
    then err (Error.storage Fault.other_fault)
    else ok (row, record db { recordings = row ∷ db.recordings })
  where
    row : RecordingRow
    row = record {
      id = id;
      session_id = session_id;
      status = RecordingStatus.recording;
      file_path = some file_path;
      file_size = 0;
      duration_ms = none;
      width = width;
      height = height;
      event_count = 0;
      started_at = host.now;
      completed_at = none;
      expires_at = expires_at;
      created_by = created_by;
    }

unfoldable pub get_recording : ℕ → Database → Option RecordingRow
get_recording id db = find (recording_is id) db.recordings

-- `UPDATE recordings SET … WHERE id = ?`, which fails if no row has the id.
unfoldable pub update_recording :
    ℕ → (RecordingRow → RecordingRow) → Database → Result (Unit {0} × Database)
update_recording id f db =
    if exists_where (recording_is id) db.recordings
    then ok (tt, record db { recordings = update_where (recording_is id) f db.recordings })
    else err (Error.invalid_input (Message.about "recording " id " not found"))

abbrev pub completed_row : ℕ → ℕ → ℕ → ℕ → RecordingRow → RecordingRow
completed_row now duration_ms event_count file_size r = record r {
  status = RecordingStatus.completed;
  duration_ms = some duration_ms;
  event_count = event_count;
  file_size = file_size;
  completed_at = some now;
}

unfoldable pub complete_recording : Host → ℕ → ℕ → ℕ → ℕ → Database → Result (Unit {0} × Database)
complete_recording host id duration_ms event_count file_size db =
    update_recording id (completed_row host.now duration_ms event_count file_size) db

abbrev pub failed_row : ℕ → RecordingRow → RecordingRow
failed_row now r = record r { status = RecordingStatus.failed; completed_at = some now }

unfoldable pub fail_recording : Host → ℕ → Database → Result (Unit {0} × Database)
fail_recording host id db = update_recording id (failed_row host.now) db

unfoldable pub find_active_recording : ℕ → Database → Option RecordingRow
find_active_recording sid db = find (active_in sid) db.recordings

abbrev pub overdue : ℕ → Option ℕ → Bool
overdue now none = false
overdue now (some at) = ltb at now

-- The share links go with the recording, by ON DELETE CASCADE.
unfoldable pub delete_recording : ℕ → Database → Database
delete_recording id db = record db {
  recordings = delete_where (recording_is id) db.recordings;
  recording_shares =
      delete_where (λ (s : RecordingShareRow). s.recording_id == id) db.recording_shares;
}

-- The WHERE of `list_expired_recordings`.
unfoldable pub is_expired_recording : ℕ → RecordingRow → Bool
is_expired_recording now r = overdue now r.expires_at && not (is_recording r.status)

unfoldable pub set_recording_permanent : ℕ → Database → Result (Unit {0} × Database)
set_recording_permanent id db =
    update_recording id (λ (r : RecordingRow). record r { expires_at = none }) db

unfoldable pub set_recording_expiry : ℕ → ℕ → Database → Result (Unit {0} × Database)
set_recording_expiry id expires_at db =
    update_recording id (λ (r : RecordingRow). record r { expires_at = some expires_at }) db

abbrev pub share_is : ℕ → RecordingShareRow → Bool
share_is sha s = s.token_sha256 == sha

unfoldable pub create_recording_share :
    Host → ℕ → ℕ → ℕ → Option ℕ → Database → Result (RecordingShareRow × Database)
create_recording_share host recording_id sha max_uses expires_at db =
    if exists_where (share_is sha) db.recording_shares
    then err (Error.storage Fault.unique_violation)
    else if not (exists_where (recording_is recording_id) db.recordings)
    then err (Error.storage Fault.other_fault)
    else ok (share, record db { recording_shares = share ∷ db.recording_shares })
  where
    share : RecordingShareRow
    share = record {
      token_sha256 = sha;
      recording_id = recording_id;
      max_uses = max_uses;
      used_count = 0;
      expires_at = expires_at;
      created_at = host.now;
    }

-- The guard of the UPDATE besides the digest. `max_uses = 0` is "without limit".
abbrev pub share_usable : ℕ → ℕ → RecordingShareRow → Bool
share_usable now recording_id s =
    s.recording_id == recording_id
    && (s.max_uses == 0 || ltb s.used_count s.max_uses)
    && unexpired now s.expires_at

abbrev pub use_share : RecordingShareRow → RecordingShareRow
use_share s = record s { used_count = s.used_count + 1 }

unfoldable pub consume_recording_share :
    Host → ℕ → ℕ → Database → Option RecordingShareRow × Database
consume_recording_share host sha expected_recording_id db =
    let guard = (λ (s : RecordingShareRow).
      share_is sha s && share_usable host.now expected_recording_id s) in
    (elim (find guard db.recording_shares) [
      | none ↦ (none, db)
      | some s ↦ (
        some (use_share s),
        record db { recording_shares = update_where guard use_share db.recording_shares },
      )
    ])

-- `created_at DESC`
abbrev pub share_before : RecordingShareRow → RecordingShareRow → Bool
share_before s t = ltb t.created_at s.created_at

unfoldable pub list_recording_shares : ℕ → Database → List RecordingShareRow
list_recording_shares id db =
    order_by share_before (select_where (λ s. s.recording_id == id) db.recording_shares)

unfoldable pub delete_recording_share : ℕ → ℕ → Database → Bool × Database
delete_recording_share recording_id sha db =
    let guard = (λ (s : RecordingShareRow). s.recording_id == recording_id && share_is sha s) in
    (
      exists_where guard db.recording_shares,
      record db { recording_shares = delete_where guard db.recording_shares },
    )
