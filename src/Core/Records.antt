-- ===== src/Core/Records.antt =====
-- The structs of crates/telepair-core/src/session.rs and recording.rs. An identifier (uuid,
-- nanoid, token digest), an e-mail address, which is only compared, and an instant is a number; a text that is only stored is a `String`.
use telepair.Base.{ℕ, Bool, Option, List, String, is_some}
use telepair.Core.Role.{Role}
use telepair.Core.Status.{InputMode, SessionStatus, CloseReason, ApprovalState, RecordingStatus}

pub record Session : Type 0 where
  pub id : ℕ
  pub owner_id : ℕ
  pub target_name : String
  pub input_mode : InputMode
  pub status : SessionStatus
  pub created_at : ℕ
  pub closed_at : Option ℕ
  pub closed_reason : Option CloseReason
  pub user_target_id : Option ℕ

pub record Participant : Type 0 where
  pub session_id : ℕ
  pub user_id : ℕ
  pub role : Role
  pub joined_at : ℕ
  pub left_at : Option ℕ

pub record User : Type 0 where
  pub id : ℕ
  pub name : String
  pub is_admin : Bool
  pub scoped_session_id : Option ℕ
  pub email : Option ℕ
  pub session_enabled : Bool
  pub approval_state : ApprovalState
  pub created_at : ℕ
  pub updated_at : ℕ

unfoldable pub is_guest : User → Bool
is_guest u = is_some u.scoped_session_id

pub record InviteToken : Type 0 where
  pub token_sha256 : ℕ
  pub session_id : ℕ
  pub role : Role
  pub max_uses : ℕ
  pub used_count : ℕ
  pub expires_at : Option ℕ
  pub created_at : Option ℕ

pub data RedeemIdentity : Type 0 where
  existing : ℕ → RedeemIdentity
  new_guest : String → RedeemIdentity

pub record RedeemOutcome : Type 0 where
  pub invite : InviteToken
  pub user_id : ℕ
  pub user_name : String
  pub issued_token : Option ℕ
  pub was_already_member : Bool

pub data PendingVerifyResult : Type 0 where
  success : User → ℕ → PendingVerifyResult
  failure : ℕ → PendingVerifyResult
  locked expired : PendingVerifyResult

pub data LoginFailureOutcome : Type 0 where
  recorded : ℕ → LoginFailureOutcome
  locked : ℕ → LoginFailureOutcome

pub record RecordingRow : Type 0 where
  pub id : ℕ
  pub session_id : ℕ
  pub status : RecordingStatus
  pub file_path : Option String
  pub file_size : ℕ
  pub duration_ms : Option ℕ
  pub width : ℕ
  pub height : ℕ
  pub event_count : ℕ
  pub started_at : ℕ
  pub completed_at : Option ℕ
  pub expires_at : Option ℕ
  pub created_by : ℕ

pub record RecordingShareRow : Type 0 where
  pub token_sha256 : ℕ
  pub recording_id : ℕ
  pub max_uses : ℕ
  pub used_count : ℕ
  pub expires_at : Option ℕ
  pub created_at : ℕ

pub record UserTarget : Type 0 where
  pub id : ℕ
  pub user_id : ℕ
  pub name : String
  pub display : String
  pub command : String
  pub args : List String
  pub env : List (String × String)
  pub tags : List String
  pub created_at : ℕ
  pub updated_at : ℕ

pub record SessionListFilter : Type 0 where
  pub status : Option SessionStatus
  pub target_name : Option String
  pub limit : Option ℕ
  pub offset : ℕ
