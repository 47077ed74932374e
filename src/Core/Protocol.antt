-- ===== src/Core/Protocol.antt =====
-- crates/telepair-core/src/protocol.rs: the messages between a client and the gateway. A token is
-- a number, as elsewhere; the JSON form is serde's.
use telepair.Base.{ℕ, Option, List, String, str_eq, if◌then◌else◌}
use telepair.Core.Failure.{Message}
use telepair.Core.Records.{Session}
use telepair.Core.Role.{Role}

-- The WebSocket close code that goes with an error code.
abbrev pub close_code_terminal : ℕ
close_code_terminal = 4001

abbrev pub close_code_transient : ℕ
close_code_transient = 4503

unfoldable pub close_code_for : String → ℕ
close_code_for code =
    if str_eq code "STORAGE_ERROR" then close_code_transient else close_code_terminal

pub data EvictReason : Type 0 where
  account_disabled token_rotated : EvictReason

pub record ParticipantInfo : Type 0 where
  pub user_id : ℕ
  pub name : String
  pub role : Role
  pub color : String

pub record ChatEntry : Type 0 where
  pub user_id : ℕ
  pub name : String
  pub text : String
  pub ts : ℕ

pub record RecordingStatusInfo : Type 0 where
  pub recording_id : ℕ
  pub started_at : ℕ

pub data ClientMessage : Type 0 where
  session_join : (session_id token cols rows : ℕ) → ClientMessage
  term_resize : (cols rows : ℕ) → ClientMessage
  chat_message : (text : String) → ClientMessage

pub data ServerMessage : Type 0 where
  session_state :
      Session
      → List ParticipantInfo
      → (your_role : Role) (your_user_id : ℕ) → List ChatEntry
      → Option RecordingStatusInfo
      → ServerMessage
  peer_joined : ℕ → String → Role → String → ServerMessage
  peer_left : ℕ → ServerMessage
  peer_evicted : ℕ → EvictReason → ServerMessage
  peer_role_changed : ℕ → Role → ServerMessage
  peer_chat : ℕ → String → String → ℕ → ServerMessage
  input_denied : (reason : String) → ServerMessage
  error : (code : String) → Message → ServerMessage
  recording_started recording_stopped : ℕ → ServerMessage

-- `From<ChatEntry>`
unfoldable pub from_chat_entry : ChatEntry → ServerMessage
from_chat_entry e = ServerMessage.peer_chat e.user_id e.name e.text e.ts
