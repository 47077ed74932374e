-- ===== src/Gateway/Socket.antt =====
-- crates/telepair-gateway/src/ws.rs: the loop of handle_socket, which reads what one client sends
-- and gates it by the client's role. `tokio::select!` makes one sequence of what arrives; a chat
-- message carries the clock, and a lag of the role subscription the sessions of the hub then.
pub mod Refines
pub mod Notices
pub mod Gated
use telepair.Base.{
  ℕ, ◌+◌, ◌*◌, Bool, ◌&&◌, not, true, false, Option, none, some, List, [], ◌∷◌, ◌++◌, String,
  if◌then◌else◌, ◌==◌, ltb, len,
}
use telepair.Core.Role.{Role, can_input, can_resize, role_eq}
use telepair.Core.Status.{InputMode}
use telepair.Core.Protocol.{ChatEntry, ClientMessage, ServerMessage}
use telepair.Hub.Scrollback.{Bytes}
use telepair.Hub.Sessions.{Sessions, get_participant_role}

abbrev pub max_chat_bytes : ℕ
max_chat_bytes = 4 * 1024

abbrev pub viewer_reason : String
viewer_reason = "VIEWER"

abbrev pub serialized_not_owner : String
serialized_not_owner = "SERIALIZED_NOT_OWNER"

abbrev pub is_serialized : InputMode → Bool
is_serialized InputMode.serialized = true
is_serialized InputMode.multiplexed = false

unfoldable pub compute_input_denied : Role → InputMode → Option String
compute_input_denied role input_mode =
    if can_input role && not (is_serialized input_mode && not (role_eq role Role.owner))
    then none
    else if role_eq role Role.viewer
    then some viewer_reason
    else some serialized_not_owner

-- A frame of the WebSocket: a text, with the message that it parses to, if any.
pub data Frame : Type 0 where
  text : Option ClientMessage → Frame
  binary : Bytes → Frame
  close : Frame
  ping_pong : Frame

-- What wakes the loop. `gone` is the end of the stream, or an error on it.
pub data Event : Type 0 where
  received : (now : ℕ) → Frame → Event
  gone : Event
  collab : ServerMessage → Event
  lagged : Sessions → Event
  shutdown : Event

-- What the loop does: a command to the pseudo-terminal, `hub.record_chat`, or a notice for this
-- client alone.
pub data Action : Type 0 where
  input : Bytes → Action
  resize : (cols rows : ℕ) → Action
  chat : ChatEntry → Action
  notice : (reason : String) → Action

pub record Connection : Type 0 where
  pub session_id : ℕ
  pub user_id : ℕ
  pub user_name : String
  pub input_mode : InputMode

-- The variables of the loop.
pub record Gate : Type 0 where
  pub current_role : Role
  pub input_denied_reason : Option String
  pub denial_notice_sent : Bool

unfoldable pub gate_for : InputMode → Role → Gate
gate_for mode role = record {
  current_role = role;
  input_denied_reason = compute_input_denied role mode;
  denial_notice_sent = false;
}

abbrev pub on_message : Connection → ℕ → ClientMessage → Gate → List Action
on_message c now (ClientMessage.term_resize cols rows) g =
    if can_resize g.current_role then Action.resize cols rows ∷ [] else []
on_message c now (ClientMessage.chat_message said) g =
    if ltb max_chat_bytes (len said)
    then []
    else Action.chat (record { user_id = c.user_id; name = c.user_name; text = said; ts = now })
      ∷ []
on_message c now (ClientMessage.session_join session_id token cols rows) g = []

abbrev pub on_input : Bytes → Gate → Option String → Gate × List Action
on_input bytes g none = (g, Action.input bytes ∷ [])
on_input bytes g (some reason) =
    if g.denial_notice_sent
    then (g, [])
    else (record g { denial_notice_sent = true }, Action.notice reason ∷ [])

-- `None` breaks the loop.
abbrev pub on_frame : Connection → ℕ → Frame → Gate → Option Gate × List Action
on_frame c now (Frame.text none) g = (some g, [])
on_frame c now (Frame.text (some message)) g = (some g, on_message c now message g)
on_frame c now (Frame.binary bytes) g =
    let (g', actions) = on_input bytes g g.input_denied_reason in (some g', actions)
on_frame c now Frame.close g = (none, [])
on_frame c now Frame.ping_pong g = (some g, [])

abbrev pub on_collab : Connection → ServerMessage → Gate → Gate
on_collab c (ServerMessage.peer_role_changed uid new_role) g =
    if uid == c.user_id then gate_for c.input_mode new_role else g
on_collab c _ g = g

abbrev pub on_lag : Connection → Option Role → Gate → Gate
on_lag c none g = g
on_lag c (some role) g = if role_eq role g.current_role then g else gate_for c.input_mode role

unfoldable pub step : Connection → Event → Gate → Option Gate × List Action
step c (Event.received now frame) g = on_frame c now frame g
step c Event.gone g = (none, [])
step c (Event.collab message) g = (some (on_collab c message g), [])
step c (Event.lagged m) g = (some (on_lag c (get_participant_role c.session_id c.user_id m) g), [])
step c Event.shutdown g = (none, [])

-- Everything that the loop does.
unfoldable pub run : Connection → List Event → Gate → List Action
run c [] g = []
run c (e ∷ es) g = elim (step c e g).0 [
  | none ↦ (step c e g).1
  | some g' ↦ (step c e g).1 ++ run c es g'
]
