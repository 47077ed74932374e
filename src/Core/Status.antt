-- ===== src/Core/Status.antt =====
-- The enumerations of crates/telepair-core/src/session.rs and recording.rs, with the lowercase
-- text that the database columns hold. Each has a module of its own for its functions.
use telepair.Base.{
  ◌⊎◌, inl, inr, Bool, true, false, Option, none, some, String, concat, str_eq, if◌then◌else◌,
  unwrap_or,
}

pub data InputMode : Type 0 where
  serialized multiplexed : InputMode

pub data SessionStatus : Type 0 where
  active closed : SessionStatus

pub data CloseReason : Type 0 where
  owner admin reaper startup error : CloseReason

pub data ApprovalState : Type 0 where
  approved pending : ApprovalState

pub data RecordingStatus : Type 0 where
  recording completed failed : RecordingStatus

unfoldable pub input_mode_as_str : InputMode → String
input_mode_as_str InputMode.serialized = "serialized"
input_mode_as_str InputMode.multiplexed = "multiplexed"

unfoldable pub input_mode_from_str : String → InputMode ⊎ String
input_mode_from_str s =
    if str_eq s "serialized"
    then inl InputMode.serialized
    else if str_eq s "multiplexed"
    then inl InputMode.multiplexed
    else inr (concat "unknown input mode: " s)

unfoldable pub session_status_as_str : SessionStatus → String
session_status_as_str SessionStatus.active = "active"
session_status_as_str SessionStatus.closed = "closed"

unfoldable pub session_status_from_str : String → SessionStatus ⊎ String
session_status_from_str s =
    if str_eq s "active"
    then inl SessionStatus.active
    else if str_eq s "closed"
    then inl SessionStatus.closed
    else inr (concat "unknown session status: " s)

unfoldable pub close_reason_as_str : CloseReason → String
close_reason_as_str CloseReason.owner = "owner"
close_reason_as_str CloseReason.admin = "admin"
close_reason_as_str CloseReason.reaper = "reaper"
close_reason_as_str CloseReason.startup = "startup"
close_reason_as_str CloseReason.error = "error"

unfoldable pub close_reason_from_str : String → CloseReason ⊎ String
close_reason_from_str s =
    if str_eq s "owner"
    then inl CloseReason.owner
    else if str_eq s "admin"
    then inl CloseReason.admin
    else if str_eq s "reaper"
    then inl CloseReason.reaper
    else if str_eq s "startup"
    then inl CloseReason.startup
    else if str_eq s "error"
    then inl CloseReason.error
    else inr (concat "unknown close reason: " s)

unfoldable pub approval_state_as_str : ApprovalState → String
approval_state_as_str ApprovalState.approved = "approved"
approval_state_as_str ApprovalState.pending = "pending"

unfoldable pub approval_state_parse : String → Option ApprovalState
approval_state_parse s =
    if str_eq s "approved"
    then some ApprovalState.approved
    else if str_eq s "pending"
    then some ApprovalState.pending
    else none

-- How `row_to_user` of storage/sqlite.rs reads the column: a text that is unknown is `approved`.
unfoldable pub read_approval_state : String → ApprovalState
read_approval_state s = unwrap_or (approval_state_parse s) ApprovalState.approved

unfoldable pub recording_status_as_str : RecordingStatus → String
recording_status_as_str RecordingStatus.recording = "recording"
recording_status_as_str RecordingStatus.completed = "completed"
recording_status_as_str RecordingStatus.failed = "failed"

unfoldable pub recording_status_parse : String → Option RecordingStatus
recording_status_parse s =
    if str_eq s "recording"
    then some RecordingStatus.recording
    else if str_eq s "completed"
    then some RecordingStatus.completed
    else if str_eq s "failed"
    then some RecordingStatus.failed
    else none

-- `==` on statuses, as the SQL text comparisons `status = 'active'` and `status = 'recording'`.
unfoldable pub is_active : SessionStatus → Bool
is_active SessionStatus.active = true
is_active SessionStatus.closed = false

unfoldable pub is_recording : RecordingStatus → Bool
is_recording RecordingStatus.recording = true
is_recording RecordingStatus.completed = false
is_recording RecordingStatus.failed = false
