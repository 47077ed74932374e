-- ===== src/Hub/Live.antt =====
-- crates/telepair-gateway/src/session_hub.rs: one live session, and what each method of the hub
-- does to it. `collab` and `output` are the frames and chunks broadcast so far; a subscriber
-- receives what is broadcast after its position. The clock is an argument.
use telepair.Base.{
  ℕ, ◌+◌, ◌-◌, ◌%◌, Bool, true, false, Option, none, some, List, [], ◌∷◌, ◌++◌, String,
  if◌then◌else◌, ◌==◌, ltb, leb, length, is_some, unwrap_or, map_option, ◌⊎◌, inl, inr,
}
use telepair.Base.Dict.{Dict, get, insert, remove, is_empty}
use telepair.Core.Role.{Role, role_eq}
use telepair.Core.Protocol.{EvictReason, ParticipantInfo, ChatEntry, ServerMessage, from_chat_entry}
use telepair.Hub.Scrollback.{Bytes, Scrollback, empty_scrollback, push}
use telepair.Hub.Recorder.{RecordingEvent, RecordingSlot, try_send}

abbrev pub chat_history_cap : ℕ
chat_history_cap = 50

abbrev pub colors : List String
colors =
    "#58a6ff" ∷ "#3fb950" ∷ "#d29922" ∷ "#f85149" ∷ "#bc8cff" ∷ "#39c5cf" ∷ "#ffa198" ∷ "#56d364"
    ∷ []

abbrev pub nth : List String → ℕ → String
nth [] i = ""
nth (c ∷ cs) i = if i == 0 then c else nth cs (i - 1)

unfoldable pub assign_color : ℕ → String
assign_color index = nth colors (index % 8)

pub record LiveSession : Type 0 where
  pub target_name : String
  pub output : List Bytes
  pub collab : List ServerMessage
  pub shut_down : Bool
  pub scrollback : Scrollback
  pub participants : Dict ParticipantInfo
  pub connections : Dict ℕ
  pub idle_since : Option ℕ
  pub color_counter : ℕ
  pub chat_history : List ChatEntry
  pub pty_size : ℕ × ℕ
  pub recording : Option RecordingSlot

-- What `start_or_join` inserts.
unfoldable pub new_live : ℕ → String → ℕ → ℕ → LiveSession
new_live now target_name cols rows = record {
  target_name = target_name;
  output = [];
  collab = [];
  shut_down = false;
  scrollback = empty_scrollback;
  participants = [];
  connections = [];
  idle_since = some now;
  color_counter = 0;
  chat_history = [];
  pty_size = (cols, rows);
  recording = none;
}

pub record SessionAttachment : Type 0 where
  pub output_rx : ℕ
  pub collab_rx : ℕ
  pub chat_history : List ChatEntry
  pub scrollback : List Bytes

unfoldable pub attach_to : LiveSession → SessionAttachment
attach_to live = record {
  output_rx = length live.output;
  collab_rx = length live.collab;
  chat_history = live.chat_history;
  scrollback = live.scrollback.chunks;
}

-- What a receiver gets that subscribed when `rx` chunks had been sent, if it does not lag.
unfoldable pub received : ℕ → List Bytes → List Bytes
received rx [] = []
received rx (c ∷ cs) = if rx == 0 then c ∷ cs else received (rx - 1) cs

-- The recording tap: nothing happens if no recording is active.
abbrev pub tap : RecordingEvent → LiveSession → LiveSession
tap event live = record live { recording = map_option (λ slot. try_send slot event) live.recording }

abbrev pub broadcast : ServerMessage → LiveSession → LiveSession
broadcast m live = record live { collab = live.collab ++ m ∷ [] }

-- `Action::Output(Some(bytes))` of the PTY loop.
unfoldable pub emit_output : Bytes → LiveSession → LiveSession
emit_output bytes live =
    tap (RecordingEvent.output bytes)
      (record live { scrollback = push live.scrollback bytes; output = live.output ++ bytes ∷ [] })

-- `PtyCommand::Resize` of the PTY loop.
unfoldable pub apply_resize : ℕ → ℕ → LiveSession → LiveSession
apply_resize cols rows live =
    tap (RecordingEvent.resize cols rows) (record live { pty_size = (cols, rows) })

-- `*connections.entry(user_id).or_insert(0) += 1`
abbrev pub next_count : ℕ → LiveSession → ℕ
next_count uid live = unwrap_or (get uid live.connections) 0 + 1

unfoldable pub add_participant : ℕ → String → Role → LiveSession → LiveSession
add_participant uid name role live =
    let attached = record live {
      idle_since = none;
      connections = insert uid (next_count uid live) live.connections;
    } in
    let color = assign_color live.color_counter in
    if next_count uid live == 1
    then tap (RecordingEvent.participant_join uid name role) (
        broadcast (ServerMessage.peer_joined uid name role color) (record attached {
          color_counter = live.color_counter + 1;
          participants =
              insert uid (record { user_id = uid; name = name; role = role; color = color })
                live.participants;
        }))
    else attached

-- `if live.connections.is_empty() { live.idle_since = Some(now) }`
abbrev pub restart_idle : ℕ → LiveSession → LiveSession
restart_idle now live = record live {
  idle_since = if is_empty live.connections then some now else live.idle_since;
}

-- The last connection of a user goes.
unfoldable pub leave : ℕ → ℕ → LiveSession → LiveSession
leave now uid live =
    let gone = record live { connections = remove uid live.connections } in
    restart_idle now (
      if is_some (get uid live.participants)
      then tap (RecordingEvent.participant_leave uid) (
          broadcast (ServerMessage.peer_left uid)
            (record gone { participants = remove uid live.participants }))
      else record gone { participants = remove uid live.participants })

unfoldable pub remove_participant : ℕ → ℕ → LiveSession → Bool × LiveSession
remove_participant now uid live = elim (get uid live.connections) [
  | none ↦ (false, live)
  | some count ↦
      if ltb 1 count
      then (false, record live { connections = insert uid (count - 1) live.connections })
      else (true, leave now uid live)
]

-- One session's part of `evict_user`; the flag says whether the user was here.
unfoldable pub evict : ℕ → ℕ → EvictReason → LiveSession → Bool × LiveSession
evict now uid reason live =
    if is_some (get uid live.connections)
    then (
      true,
      restart_idle now (
          broadcast (ServerMessage.peer_evicted uid reason) (record live {
            connections = remove uid live.connections;
            participants = remove uid live.participants;
          })),
    )
    else (false, live)

abbrev pub drop_first : List ChatEntry → List ChatEntry
drop_first [] = []
drop_first (e ∷ es) = es

unfoldable pub record_chat : ChatEntry → LiveSession → LiveSession
record_chat entry live =
    let kept =
      (if leb chat_history_cap (length live.chat_history)
        then drop_first live.chat_history
        else live.chat_history) in
    tap (RecordingEvent.chat entry.user_id entry.name entry.text)
      (broadcast (from_chat_entry entry) (record live { chat_history = kept ++ entry ∷ [] }))

unfoldable pub start_recording : RecordingSlot → LiveSession → String ⊎ LiveSession
start_recording slot live =
    if is_some live.recording
    then inl "recording already active"
    else inr (record live { recording = some slot })

-- The slot is taken; its owner then sends `Stop`.
unfoldable pub take_recording : LiveSession → Option RecordingSlot × LiveSession
take_recording live = (live.recording, record live { recording = none })

unfoldable pub update_participant_role : ℕ → Role → LiveSession → Bool × LiveSession
update_participant_role uid new_role live = elim (get uid live.participants) [
  | none ↦ (false, live)
  | some info ↦ if role_eq info.role new_role then (false, live) else (
    true,
    broadcast (ServerMessage.peer_role_changed uid new_role) (record live {
      participants = insert uid (record info { role = new_role }) live.participants;
    }),
  )
]
