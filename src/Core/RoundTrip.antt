-- ===== src/Core/RoundTrip.antt =====
-- Every enumeration survives the trip through its database column.
use telepair.Base.{
  ◌≡◌, ◌↔◌, refl, sym, ap, ◌∙◌, inl, inr, some, arith, eq_iff, String, str_eq, if◌then◌else◌,
  Bool-cases,
}
use telepair.Core.Role
use telepair.Core.Role.{Role}
use telepair.Core.Status.{
  InputMode, SessionStatus, CloseReason, ApprovalState, RecordingStatus, input_mode_as_str,
  input_mode_from_str, session_status_as_str, session_status_from_str, close_reason_as_str,
  close_reason_from_str, approval_state_as_str, approval_state_parse, recording_status_as_str,
  recording_status_parse, read_approval_state,
}
use telepair.Core.AuditEvents.{
  AuditEventType, audit_event_as_str, audit_event_from_str, audit_event_from_str-as_str,
  audit_event_as_str-from_str, str_eq→eq,
}

input_mode_from_str-as_str : (x : InputMode) → input_mode_from_str (input_mode_as_str x) ≡ inl x
unfolding input_mode_as_str input_mode_from_str
input_mode_from_str-as_str InputMode.serialized = refl
input_mode_from_str-as_str InputMode.multiplexed = refl

input_mode_as_str-from_str :
    (s : String) (x : InputMode) → input_mode_from_str s ≡ inl x → input_mode_as_str x ≡ s
unfolding input_mode_as_str input_mode_from_str
input_mode_as_str-from_str s x h = ground (arith, eq_iff s "serialized", eq_iff s "multiplexed")

session_status_from_str-as_str :
    (x : SessionStatus) → session_status_from_str (session_status_as_str x) ≡ inl x
unfolding session_status_as_str session_status_from_str
session_status_from_str-as_str SessionStatus.active = refl
session_status_from_str-as_str SessionStatus.closed = refl

session_status_as_str-from_str :
    (s : String) (x : SessionStatus)
    → session_status_from_str s ≡ inl x
    → session_status_as_str x ≡ s
unfolding session_status_as_str session_status_from_str
session_status_as_str-from_str s x h = ground (arith, eq_iff s "active", eq_iff s "closed")

close_reason_from_str-as_str :
    (x : CloseReason) → close_reason_from_str (close_reason_as_str x) ≡ inl x
unfolding close_reason_as_str close_reason_from_str
close_reason_from_str-as_str CloseReason.owner = refl
close_reason_from_str-as_str CloseReason.admin = refl
close_reason_from_str-as_str CloseReason.reaper = refl
close_reason_from_str-as_str CloseReason.startup = refl
close_reason_from_str-as_str CloseReason.error = refl

close_reason_as_str-from_str :
    (s : String) (x : CloseReason) → close_reason_from_str s ≡ inl x → close_reason_as_str x ≡ s
unfolding close_reason_as_str close_reason_from_str
close_reason_as_str-from_str s x h = ground (
  arith,
  eq_iff s "owner",
  eq_iff s "admin",
  eq_iff s "reaper",
  eq_iff s "startup",
  eq_iff s "error",
)

approval_state_parse-as_str :
    (x : ApprovalState) → approval_state_parse (approval_state_as_str x) ≡ some x
unfolding approval_state_as_str approval_state_parse
approval_state_parse-as_str ApprovalState.approved = refl
approval_state_parse-as_str ApprovalState.pending = refl

approval_state_as_str-parse :
    (s : String) (x : ApprovalState) → approval_state_parse s ≡ some x → approval_state_as_str x ≡ s
unfolding approval_state_as_str approval_state_parse
approval_state_as_str-parse s x h = ground (arith, eq_iff s "approved", eq_iff s "pending")

recording_status_parse-as_str :
    (x : RecordingStatus) → recording_status_parse (recording_status_as_str x) ≡ some x
unfolding recording_status_as_str recording_status_parse
recording_status_parse-as_str RecordingStatus.recording = refl
recording_status_parse-as_str RecordingStatus.completed = refl
recording_status_parse-as_str RecordingStatus.failed = refl

recording_status_as_str-parse :
    (s : String) (x : RecordingStatus)
    → recording_status_parse s ≡ some x
    → recording_status_as_str x ≡ s
unfolding recording_status_as_str recording_status_parse
recording_status_as_str-parse s x h =
    ground (arith, eq_iff s "recording", eq_iff s "completed", eq_iff s "failed")

role_from_str-as_str : (x : Role) → Role.from_str (Role.as_str x) ≡ inl x
unfolding Role.as_str Role.from_str
role_from_str-as_str Role.owner = refl
role_from_str-as_str Role.operator = refl
role_from_str-as_str Role.viewer = refl

role_as_str-from_str : (s : String) (x : Role) → Role.from_str s ≡ inl x → Role.as_str x ≡ s
unfolding Role.as_str Role.from_str
role_as_str-from_str s x h =
    ground (arith, eq_iff s "owner", eq_iff s "operator", eq_iff s "viewer")

approval_read :
    (s : String)
    → read_approval_state s
      ≡ (if str_eq s "pending" then ApprovalState.pending else ApprovalState.approved)
unfolding read_approval_state approval_state_parse
approval_read s = elim (Bool-cases (str_eq s "approved")) [
  | inl same ↦ rw (str_eq→eq s "approved" same) refl
  | inr other ↦ elim (Bool-cases (str_eq s "pending")) [
    | inl same ↦ rw (other, same) refl
    | inr neither ↦ rw (other, neither) refl
  ]
]

-- For role, input mode, session status, close reason, approval state, recording status and audit
-- event type, the parser reads a text as a value exactly if it is the text that the value is written
-- as. A user's row is read more loosely: its approval is pending exactly if the column holds the
-- text of pending, and every other text counts as approved.
pub columns_round_trip :
    ((s : String) (x : Role) → (Role.from_str s ≡ inl x) ↔ (Role.as_str x ≡ s))
    × ((s : String) (x : InputMode) → (input_mode_from_str s ≡ inl x) ↔ (input_mode_as_str x ≡ s))
    × ((s : String) (x : SessionStatus)
        → (session_status_from_str s ≡ inl x) ↔ (session_status_as_str x ≡ s))
    × ((s : String) (x : CloseReason)
        → (close_reason_from_str s ≡ inl x) ↔ (close_reason_as_str x ≡ s))
    × ((s : String) (x : ApprovalState)
        → (approval_state_parse s ≡ some x) ↔ (approval_state_as_str x ≡ s))
    × ((s : String) (x : RecordingStatus)
        → (recording_status_parse s ≡ some x) ↔ (recording_status_as_str x ≡ s))
    × ((s : String) (x : AuditEventType)
        → (audit_event_from_str s ≡ inl x) ↔ (audit_event_as_str x ≡ s))
    × ((s : String)
        → read_approval_state s
          ≡ (if str_eq s "pending" then ApprovalState.pending else ApprovalState.approved))
columns_round_trip = (
  λ s x. (role_as_str-from_str s x, λ e. ap Role.from_str (sym e) ∙ role_from_str-as_str x),
  λ s x. (
    input_mode_as_str-from_str s x,
    λ e. ap input_mode_from_str (sym e) ∙ input_mode_from_str-as_str x,
  ),
  λ s x. (
    session_status_as_str-from_str s x,
    λ e. ap session_status_from_str (sym e) ∙ session_status_from_str-as_str x,
  ),
  λ s x. (
    close_reason_as_str-from_str s x,
    λ e. ap close_reason_from_str (sym e) ∙ close_reason_from_str-as_str x,
  ),
  λ s x. (
    approval_state_as_str-parse s x,
    λ e. ap approval_state_parse (sym e) ∙ approval_state_parse-as_str x,
  ),
  λ s x. (
    recording_status_as_str-parse s x,
    λ e. ap recording_status_parse (sym e) ∙ recording_status_parse-as_str x,
  ),
  λ s x. (
    audit_event_as_str-from_str s x,
    λ e. ap audit_event_from_str (sym e) ∙ audit_event_from_str-as_str x,
  ),
  approval_read,
)
