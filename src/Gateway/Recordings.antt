-- ===== src/Gateway/Recordings.antt =====
-- crates/telepair-gateway/src/http.rs: who starts, stops, deletes and shares a recording. The writer
-- task finishes a row later, by itself; it is no part of a request. SQLite itself does not fail.
pub mod Begun
pub mod Made
use telepair.Base.{
  ℕ, Bool, ◌&&◌, ◌||◌, not, true, false, Option, none, some, [], String, if◌then◌else◌, ◌==◌, ◌⊎◌,
  inl, inr,
}
use telepair.Core.Failure.{Error, Result, ok, err}
use telepair.Core.Protocol.{ServerMessage}
use telepair.Core.Records.{User, RecordingRow, RecordingShareRow}
use telepair.Storage.{Database, Host}
use telepair.Storage.Recordings.{
  get_recording, find_active_recording, fail_recording, delete_recording_share,
}
use telepair.Hub.Recorder.{RecordingSlot}
use telepair.Hub.Live
use telepair.Hub.Live.{LiveSession}
use telepair.Hub.Sessions.{
  SessionEntry, Sessions, get_live, with_live, pty_size, broadcast_collab, stop_recording,
}
use telepair.Control.Audit.{AuditEntry}
use telepair.Control.Sessions.{require_active_owned}
use telepair.Control.Recordings
use telepair.Control.Recordings.{
  RecordingConfig, Removal, should_record, create_share, validate_share_token,
}
use telepair.Gateway.World.{
  AppState, ApiError, ApiResult, Reply, refuse, grant, lift, log, check, serve_answer, extract_user,
}

-- `spawn_recording_writer` makes a channel of 1024 events.
abbrev pub fresh_slot : RecordingSlot
fresh_slot = record { sent = []; room = 1024; closed = false; dropped = 0 }

-- What `hub.start_recording` answers of the session that it found.
abbrev pub installed : String ⊎ LiveSession → LiveSession → (String ⊎ Unit {0}) × LiveSession
installed (inl reason) l = (inl reason, l)
installed (inr l') l = (inr tt, l')

unfoldable pub install_slot : RecordingSlot → ℕ → Sessions → (String ⊎ Unit {0}) × Sessions
install_slot slot =
    with_live (inl "session not found or not live") (λ l. installed (Live.start_recording slot l) l)

abbrev pub size_or_default : Option (ℕ × ℕ) → ℕ × ℕ
size_or_default none = (80, 24)
size_or_default (some size) = size

-- The roll-back. An error of it is only logged.
abbrev pub rolled_back : Result (Unit {0} × Database) → Database → Database
rolled_back (err e) db = db
rolled_back (ok (u, db')) db = db'

-- With the row in the database, and what the hub made of the slot.
abbrev pub announce :
    Host
    → User
    → ℕ
    → RecordingRow
    → Database
    → (String ⊎ Unit {0}) × Sessions
    → AppState
    → Reply RecordingRow
announce host user session_id recording db (inl reason, m) w =
    refuse (ApiError.with_message 409 reason)
      (record w { database = rolled_back (fail_recording host recording.id db) db; hub = m })
announce host user session_id recording db (inr u, m) w = grant recording (
    log (AuditEntry.recording_started user.id session_id recording.id) (record w {
      database = db;
      hub = broadcast_collab (ServerMessage.recording_started recording.id) session_id m;
    }))

module _ (file_name : ℕ → String) (config : RecordingConfig) (dir_made : Bool) (host : Host) where
  -- With the row that the service made.
  abbrev pub begin : User → ℕ → Result (RecordingRow × Database) → AppState → Reply RecordingRow
  begin user session_id (err e) w = refuse (ApiError.from e) w
  begin user session_id (ok (recording, db)) w =
      announce host user session_id recording db (install_slot fresh_slot session_id w.hub) w

  -- `start_recording` once the caller is known to own the session.
  unfoldable pub start_as : User → ℕ → AppState → Reply RecordingRow
  start_as user session_id w =
      if not (should_record config none)
      then refuse (ApiError.with_message 403 "session recording is disabled on this server") w
      else let (cols, rows) = size_or_default (pty_size session_id w.hub) in
        begin user session_id
          (Recordings.create_recording file_name config dir_made host session_id user.id cols rows
            w.database)
          w

  unfoldable pub start_recording : (ℕ → ℕ) → (token : Option ℕ) → ℕ → AppState → Reply RecordingRow
  start_recording token_sha256 token session_id w =
      check (extract_user token_sha256 token w.database) w (λ user.
        check (lift (require_active_owned user session_id w.database)) w
          (λ session. start_as user session_id w))

-- `hub.stop_recording`; the writer of the slot is sent `Stop`.
abbrev pub detached :
    User → ℕ → RecordingRow → (String ⊎ RecordingSlot) × Sessions → AppState → Reply (Unit {0})
detached user session_id recording (inl reason, m) w =
    refuse (ApiError.with_message 409 reason) (record w { hub = m })
detached user session_id recording (inr slot, m) w = grant tt (
    log (AuditEntry.recording_stopped user.id session_id recording.id) (record w {
      hub = broadcast_collab (ServerMessage.recording_stopped recording.id) session_id m;
    }))

abbrev pub stop_active : User → ℕ → Option RecordingRow → AppState → Reply (Unit {0})
stop_active user session_id none w =
    refuse (ApiError.with_message 404 "no active recording for this session") w
stop_active user session_id (some recording) w =
    detached user session_id recording (stop_recording session_id w.hub) w

unfoldable pub stop_recording_of : (ℕ → ℕ) → (token : Option ℕ) → ℕ → AppState → Reply (Unit {0})
stop_recording_of token_sha256 token session_id w =
    check (extract_user token_sha256 token w.database) w (λ user.
      check (lift (require_active_owned user session_id w.database)) w
        (λ session. stop_active user session_id (find_active_recording session_id w.database) w))

abbrev pub accessible : Bool → User → Option RecordingRow → ApiResult RecordingRow
accessible admin_allowed user none = ApiResult.refused (ApiError.bare 404)
accessible admin_allowed user (some recording) =
    let is_owner = recording.created_by == user.id in
    let is_admin = admin_allowed && user.is_admin in
    if not is_owner && not is_admin
    then ApiResult.refused (ApiError.bare 403)
    else ApiResult.granted recording

unfoldable pub require_recording_access : ℕ → User → Bool → Database → ApiResult RecordingRow
require_recording_access recording_id user admin_allowed db =
    accessible admin_allowed user (get_recording recording_id db)

module _ (token_sha256 : ℕ → ℕ) where
  unfoldable pub delete_recording : Removal → (token : Option ℕ) → ℕ → AppState → Reply (Unit {0})
  delete_recording removal token recording_id w =
      check (extract_user token_sha256 token w.database) w (λ user.
        check (require_recording_access recording_id user true w.database) w (λ row.
          serve_answer (Recordings.delete_recording removal recording_id w.database) ApiError.from w
            (λ (u, db) w'. grant tt (record w' { database = db }))))

  unfoldable pub revoke_recording_share :
      (token : Option ℕ) → (recording_id share_sha256 : ℕ) → AppState → Reply (Unit {0})
  revoke_recording_share token recording_id share_sha256 w =
      check (extract_user token_sha256 token w.database) w (λ user.
        check (require_recording_access recording_id user false w.database) w (λ row.
          let (deleted, db) = delete_recording_share recording_id share_sha256 w.database in
          let w' = record w { database = db } in
          if not deleted then refuse (ApiError.bare 404) w' else grant tt w'))
