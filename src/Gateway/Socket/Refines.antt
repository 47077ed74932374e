-- ===== src/Gateway/Socket/Refines.antt =====
-- The loop of ws.rs caches its verdict on input, and a latch. What it does is read off here from
-- the events so far alone.
use telepair.Base.{
  ◌≡◌, refl, Bool, ◌||◌, not, true, false, Option, none, some, List, [], ◌∷◌, ◌++◌, String,
  if◌then◌else◌, ◌==◌, ltb, len, arith, Option-cases, inl, inr,
}
use telepair.Core.Role.{Role, can_input, can_resize, role_eq, role_eq→eq}
use telepair.Core.Status.{InputMode}
use telepair.Core.Protocol.{ClientMessage, ServerMessage}
use telepair.Hub.Sessions.{get_participant_role}
use telepair.Gateway.Socket.{
  Frame, Event, Action, Connection, Gate, gate_for, compute_input_denied, step, run,
}

-- Who may type.
abbrev pub permitted : Role → InputMode → Bool
permitted Role.owner mode = true
permitted Role.operator InputMode.multiplexed = true
permitted Role.operator InputMode.serialized = false
permitted Role.viewer mode = false

abbrev pub refusal : Role → String
refusal Role.viewer = "VIEWER"
refusal _ = "SERIALIZED_NOT_OWNER"

-- The role that an event assigns to the connection's user, if it does.
abbrev pub assigns : Connection → Event → Option Role
assigns c (Event.collab (ServerMessage.peer_role_changed uid role)) =
    if uid == c.user_id then some role else none
assigns c (Event.lagged m) = get_participant_role c.session_id c.user_id m
assigns c _ = none

-- The role after a history, whose newest event stands first.
abbrev pub assigned_role : Role → Option Role → Role
assigned_role r none = r
assigned_role r (some role) = role

unfoldable pub role_after : Connection → Role → List Event → Role
role_after c joined_as [] = joined_as
role_after c joined_as (e ∷ h) = assigned_role (role_after c joined_as h) (assigns c e)

-- Whether a denied frame came since the role was last set. A lag sets it only to another role.
abbrev pub still_warned : Role → Connection → Event → Bool → Bool
still_warned r c (Event.received now (Frame.binary bytes)) w = w || not (permitted r c.input_mode)
still_warned r c (Event.collab (ServerMessage.peer_role_changed uid role)) w =
    if uid == c.user_id then false else w
still_warned r c (Event.lagged m) w = elim (get_participant_role c.session_id c.user_id m) [
  | none ↦ w
  | some role ↦ if role_eq role r then w else false
]
still_warned r c _ w = w

unfoldable pub warned : Connection → Role → List Event → Bool
warned c joined_as [] = false
warned c joined_as (e ∷ h) = still_warned (role_after c joined_as h) c e (warned c joined_as h)

-- What an event makes the connection do, in a role, and with or without a warning before.
abbrev pub answer : Connection → Role → Bool → Event → List Action
answer c r w (Event.received now (Frame.binary bytes)) =
    if permitted r c.input_mode
    then Action.input bytes ∷ []
    else if w
    then []
    else Action.notice (refusal r) ∷ []
answer c r w (Event.received now (Frame.text (some (ClientMessage.term_resize cols rows)))) =
    if permitted r InputMode.multiplexed then Action.resize cols rows ∷ [] else []
answer c r w (Event.received now (Frame.text (some (ClientMessage.chat_message said)))) =
    if ltb 4096 (len said)
    then []
    else Action.chat (record { user_id = c.user_id; name = c.user_name; text = said; ts = now })
      ∷ []
answer c r w _ = []

abbrev pub ends : Event → Bool
ends Event.gone = true
ends Event.shutdown = true
ends (Event.received now Frame.close) = true
ends _ = false

-- All that the connection does in the events after a history.
unfoldable pub transcript : Connection → Role → List Event → List Event → List Action
transcript c joined_as h [] = []
transcript c joined_as h (e ∷ es) = elim (ends e) [
  | true ↦ []
  | false ↦
      answer c (role_after c joined_as h) (warned c joined_as h) e
      ++ transcript c joined_as (e ∷ h) es
]

compute_input_denied-permitted :
    (r : Role) (mode : InputMode)
    → compute_input_denied r mode ≡ (if permitted r mode then none else some (refusal r))
unfolding compute_input_denied can_input role_eq
compute_input_denied-permitted Role.owner InputMode.serialized = refl
compute_input_denied-permitted Role.owner InputMode.multiplexed = refl
compute_input_denied-permitted Role.operator InputMode.serialized = refl
compute_input_denied-permitted Role.operator InputMode.multiplexed = refl
compute_input_denied-permitted Role.viewer InputMode.serialized = refl
compute_input_denied-permitted Role.viewer InputMode.multiplexed = refl

can_resize-permitted : (r : Role) → can_resize r ≡ permitted r InputMode.multiplexed
unfolding can_resize
can_resize-permitted Role.owner = refl
can_resize-permitted Role.operator = refl
can_resize-permitted Role.viewer = refl

-- The state that the loop keeps, in terms of the role and of whether a notice went out.
abbrev gate_at : Connection → Role → Bool → Gate
gate_at c r w = record (gate_for c.input_mode r) { denial_notice_sent = w }

step-gate_at :
    (c : Connection) (r : Role) (w : Bool) (e : Event)
    → step c e (gate_at c r w) ≡ (
      (if ends e
          then none
          else some (gate_at c (assigned_role r (assigns c e)) (still_warned r c e w))),
      (if ends e then [] else answer c r w e),
    )
unfolding step gate_for
step-gate_at c r w (Event.received now (Frame.text none)) = refl
step-gate_at c r w (Event.received now (Frame.text (some (ClientMessage.term_resize cols rows)))) =
    ground (arith, can_resize-permitted r)
step-gate_at c r w (Event.received now (Frame.text (some (ClientMessage.chat_message said)))) = refl
step-gate_at c r w (Event.received now (Frame.text (some (ClientMessage.session_join s t x y)))) =
    refl
step-gate_at c r w (Event.received now (Frame.binary bytes)) =
    ground (arith, compute_input_denied-permitted r c.input_mode)
step-gate_at c r w (Event.received now Frame.close) = refl
step-gate_at c r w (Event.received now Frame.ping_pong) = refl
step-gate_at c r w Event.gone = refl
step-gate_at c r w Event.shutdown = refl
step-gate_at c r w (Event.lagged m) =
    elim (Option-cases (get_participant_role c.session_id c.user_id m)) [
      | inl absent ↦ ground (arith, absent)
      | inr (role, found) ↦ ground (arith, found, role_eq→eq role r)
    ]
step-gate_at c r w (Event.collab (ServerMessage.peer_role_changed uid role)) = ground arith
step-gate_at c r w (Event.collab (ServerMessage.session_state s ps your_role uid cs rec)) = refl
step-gate_at c r w (Event.collab (ServerMessage.peer_joined uid name role color)) = refl
step-gate_at c r w (Event.collab (ServerMessage.peer_left uid)) = refl
step-gate_at c r w (Event.collab (ServerMessage.peer_evicted uid reason)) = refl
step-gate_at c r w (Event.collab (ServerMessage.peer_chat uid name said ts)) = refl
step-gate_at c r w (Event.collab (ServerMessage.input_denied reason)) = refl
step-gate_at c r w (Event.collab (ServerMessage.error code said)) = refl
step-gate_at c r w (Event.collab (ServerMessage.recording_started id)) = refl
step-gate_at c r w (Event.collab (ServerMessage.recording_stopped id)) = refl

transcript_from :
    (c : Connection) (joined_as : Role) (h es : List Event)
    → run c es (gate_at c (role_after c joined_as h) (warned c joined_as h))
      ≡ transcript c joined_as h es
unfolding run transcript role_after warned
transcript_from c joined_as h [] = refl
transcript_from c joined_as h (e ∷ es) = ground (
  arith,
  step-gate_at c (role_after c joined_as h) (warned c joined_as h) e,
  transcript_from c joined_as (e ∷ h) es,
)

pub run-transcript :
    (c : Connection) (joined_as : Role) (es : List Event)
    → run c es (gate_for c.input_mode joined_as) ≡ transcript c joined_as [] es
unfolding role_after warned gate_for
run-transcript c joined_as es = transcript_from c joined_as [] es
