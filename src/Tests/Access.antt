-- ===== src/Tests/Access.antt =====
-- The theorems on the connections and requests of the gateway, at one state of it.
use telepair.Base.{
  ℕ, ◌≤◌, ◌≡◌, true, false, none, some, List, [], ◌∷◌, String, Option, Bool, arith, is_some,
}
use telepair.Core.Role.{Role}
use telepair.Core.Status.{InputMode, is_active}
use telepair.Core.Protocol.{ClientMessage, ServerMessage, EvictReason}
use telepair.Storage.{UserRow}
use telepair.Hub.Live.{LiveSession, new_live}
use telepair.Hub.Sessions.{SessionEntry, Sessions, start_or_join, get_live, get_participant_role}
use telepair.Base.Dict.{get}
use telepair.Base.Rows.{find}
use telepair.Storage.Sessions.{find_active_participant_role}
use telepair.Hub.Reachable.{Step, Reach}
use telepair.Targets.{empty}
use telepair.Targets.Substitution.{Text, expand, dollar, right_brace}
use telepair.Targets.Terminates.{mentions, expand-terminates}
use telepair.Gateway.World.{AppState}
use telepair.Gateway.Socket.{Connection, Event, Frame, Action, gate_for, run}
use telepair.Gateway.Socket.Refines.{transcript, role_after, warned}
use telepair.Gateway.Socket.Notices.{notices, assignments}
use telepair.Gateway.Socket.Gated.{loop_gated}
use telepair.Gateway.Forwarder.{Arrival, forward, ClosesRight, forward-ClosesRight}
use telepair.Gateway.Admission.{Outage, admit}
use telepair.Gateway.Admission.Checked
use telepair.Gateway.Admission.Checked.{Checked, admit-Checked}
use telepair.Gateway.Accounts.{set_user_enabled}
use telepair.Gateway.Accounts.Evicted.{Disabled, disable-evicts}
use telepair.Control.Recordings.{RecordingConfig}
use telepair.Gateway.Recordings.{start_recording}
use telepair.Gateway.Recordings.Begun.{Begun, start_recording-Begun}
use telepair.Gateway.Sessions.{CreateSessionRequest, create_session}
use telepair.Gateway.Sessions.Created.{Created, create_session-Created}
use telepair.Gateway.Roles.{update_participant_role}
use telepair.Gateway.Roles.Changed.{InStep, Changed, update_participant_role-Changed}
use telepair.Gateway.Targets.{TargetFile, reload_targets}
use telepair.Gateway.Targets.Keeps.{Safe, reload_targets-Safe}
use telepair.Tests.Fixtures.{sha, at, account, database}

-- An administrator, whose token is 33.
abbrev admin : UserRow
admin = record (account 3 "root" 33) {
  user = record ((account 3 "root" 33).user) { is_admin = true };
}

abbrev fresh : LiveSession
fresh = new_live 5 "dev" 80 24

abbrev opened : Sessions
opened = (start_or_join 5 7 "dev" 80 24 true [] []).1

opened-Reach : Reach opened
opened-Reach = Reach.next Reach.empty (Step.start [] 5 7 "dev" 80 24 true)

abbrev running : AppState
running = record {
  database = record database { users = admin ∷ database.users };
  hub = opened;
  targets = empty;
  audit = [];
}

abbrev no_variable : String → Option String
no_variable name = none

abbrev all_up : Outage
all_up = record { session = false; participants = false; target = false; recording = false }

-- Ada joins her session.
abbrev hello : Option Frame
hello = some (Frame.text (some (ClientMessage.session_join 7 11 80 24)))

admit-Checked_example :
    Checked
      (Checked.SentToken sha running hello)
      7
      running
      (admit sha no_variable "/bin/sh" (at 9) true all_up 7 hello running)
admit-Checked_example = admit-Checked sha no_variable "/bin/sh" (at 9) true all_up 7 hello running

-- Bob types as a viewer, is made an operator, and types again.
abbrev bob : Connection
bob = record { session_id = 7; user_id = 2; user_name = "bob"; input_mode = InputMode.multiplexed }

abbrev typed : List Event
typed =
    Event.received 9 (Frame.binary (108 ∷ []))
    ∷ Event.collab (ServerMessage.peer_role_changed 2 Role.operator)
    ∷ Event.received 10 (Frame.binary (108 ∷ []))
    ∷ Event.received 11 Frame.close
    ∷ []

loop_gated_example :
    (run bob typed (gate_for InputMode.multiplexed Role.viewer)
      ≡ Action.notice "VIEWER" ∷ Action.input (108 ∷ []) ∷ [])
    × (notices (run bob typed (gate_for InputMode.multiplexed Role.viewer)) ≤ 2)
unfolding transcript assignments role_after warned gate_for notices
loop_gated_example = loop_gated bob Role.viewer typed

abbrev arrivals : List (Bool × Bool × Arrival)
arrivals =
    (true, true, Arrival.output (108 ∷ []))
    ∷ (true, true, Arrival.collab (ServerMessage.peer_evicted 2 EvictReason.account_disabled))
    ∷ (true, true, Arrival.output (109 ∷ []))
    ∷ []

forward-ClosesRight_example : ClosesRight 2 (forward 2 arrivals).1 false (forward 2 arrivals).0
forward-ClosesRight_example = forward-ClosesRight 2 arrivals

disable-evicts_example :
    Disabled 2 running
      (set_user_enabled sha (at 9) (some 33) 2 false running).answer
      (set_user_enabled sha (at 9) (some 33) 2 false running).state
disable-evicts_example = disable-evicts sha (at 9) (some 33) 2 running opened-Reach

reload_targets-Safe_example :
    Safe 9 60 running
      (reload_targets sha 9 60 (some 33) none (some (TargetFile.listed [] 1)) running).answer
      (reload_targets sha 9 60 (some 33) none (some (TargetFile.listed [] 1)) running).state
reload_targets-Safe_example =
    reload_targets-Safe sha 9 60 (some 33) none (some (TargetFile.listed [] 1)) running

abbrev no_text : Text → Option Text
no_text name = none

abbrev two_dollars : Text
two_dollars = dollar ∷ dollar ∷ right_brace ∷ []

expand-terminates_example :
    (is_some (expand 4 no_text two_dollars) ≡ true)
    × (expand 5 no_text two_dollars ≡ expand 4 no_text two_dollars)
    × (mentions two_dollars ≡ false → expand 4 no_text two_dollars ≡ some two_dollars)
expand-terminates_example = expand-terminates no_text two_dollars 4 (omega arith)

-- Bob watches Ada's session, in the store and in the hub.
abbrev watching : LiveSession
watching = record fresh {
  participants = (2, record { user_id = 2; name = "bob"; role = Role.viewer; color = "red" }) ∷ [];
}

abbrev shared : AppState
shared = record running {
  database = record database {
    participants =
        record { session_id = 7; user_id = 2; role = Role.viewer; joined_at = 4; left_at = none }
        ∷ database.participants;
  };
  hub = (7, SessionEntry.live watching) ∷ [];
}

shared-InStep : InStep shared
unfolding get_participant_role get_live get find_active_participant_role find is_active
shared-InStep id uid role h = ground arith

-- Ada, whose token is 11, lets Bob type.
update_participant_role-Changed_example :
    Changed sha
      (some 11)
      7
      (some 2)
      Role.operator
      shared
      (update_participant_role sha (at 9) (some 11) 7 (some 2) Role.operator shared).answer
      (update_participant_role sha (at 9) (some 11) 7 (some 2) Role.operator shared).state
update_participant_role-Changed_example =
    update_participant_role-Changed sha (at 9) (some 11) 7 Role.operator shared shared-InStep
      (some 2)

abbrev recording_on : RecordingConfig
recording_on = record { enabled = true; ttl_days = 30 }

abbrev one_file : ℕ → String
one_file id = "60.cast"

-- Ada records her session.
start_recording-Begun_example :
    Begun sha recording_on
      (some 11)
      7
      running
      (start_recording one_file recording_on true (at 9) sha (some 11) 7 running).answer
      (start_recording one_file recording_on true (at 9) sha (some 11) 7 running).state
start_recording-Begun_example =
    start_recording-Begun one_file recording_on true (at 9) sha (some 11) 7 running

-- Ada, whose token is 11, opens her own target.
abbrev her_box : CreateSessionRequest
her_box = record { target_name = none; target_id = some 90; input_mode = none }

create_session-Created_example :
    Created sha
      (some 11)
      running
      (create_session sha (at 9) (some 11) her_box running).answer
      (create_session sha (at 9) (some 11) her_box running).state
create_session-Created_example = create_session-Created sha (at 9) (some 11) running her_box
