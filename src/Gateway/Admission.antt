-- ===== src/Gateway/Admission.antt =====
-- crates/telepair-gateway/src/ws.rs: handle_socket until the client is attached to its session. A
-- look-up of the store may fail, which `Outage` decides, and so may the shell that is spawned.
pub mod Checked
use telepair.Base.{
  ℕ, Bool, ◌&&◌, ◌||◌, not, true, false, Option, none, some, List, [], ◌∷◌, String, if◌then◌else◌,
  ◌==◌, is_some, map_option,
}
use telepair.Base.Rows.{find}
use telepair.Core.Failure.{Message, Fault, Error, Result, ok, err}
use telepair.Core.Role.{Role}
use telepair.Core.Status.{CloseReason, is_active}
use telepair.Core.Protocol.{ClientMessage, ParticipantInfo, RecordingStatusInfo}
use telepair.Core.Records.{User, Session, Participant, RecordingRow}
use telepair.Storage.{Database, Host}
use telepair.Storage.Accounts.{validate_token}
use telepair.Storage.Sessions.{get_session, list_participants}
use telepair.Storage.Recordings.{find_active_recording}
use telepair.Hub.Live.{SessionAttachment}
use telepair.Hub.Sessions.{
  Sessions, start_or_join, release_reservation, add_participant_and_snapshot,
}
use telepair.Targets.{resolve}
use telepair.Control.Audit.{Outcome}
use telepair.Control.Redeem.{strays}
use telepair.Control.Sessions.{close_session}
use telepair.Control.UserTargets.{Launch, resolve_by_id}
use telepair.Gateway.World.{AppState, absorb, audit_session_access_denied}
use telepair.Gateway.Socket.{Frame}

pub record Outage : Type 0 where
  pub session : Bool
  pub participants : Bool
  pub target : Bool
  pub recording : Bool

abbrev pub reading {ℓ} : {A : Type ℓ} → Bool → A → Result A
reading down a = if down then err (Error.storage Fault.other_fault) else ok a

pub data ResolveError : Type 0 where
  not_found storage : Message → ResolveError

pub data Resolved : Type 0 where
  unresolved : ResolveError → Resolved
  launch : Launch → Resolved

abbrev pub found_or : Message → Option Launch → Resolved
found_or m none = Resolved.unresolved (ResolveError.not_found m)
found_or m (some l) = Resolved.launch l

-- What the handshake gives the loop.
pub record Attached : Type 0 where
  pub user : User
  pub session : Session
  pub my_role : Role
  pub participants : List ParticipantInfo
  pub attachment : SessionAttachment
  pub recording : Option RecordingStatusInfo

-- `send_error` closes the socket with the code's close code.
pub data Admission : Type 0 where
  rejected : (code : String) → Message → Admission
  attached : Attached → Admission

abbrev pub storage_failure : AppState → Admission × AppState
storage_failure w = (
  Admission.rejected "STORAGE_ERROR" (Message.text "temporary storage failure — please retry"),
  w,
)

abbrev pub is_me : ℕ → Participant → Bool
is_me uid p = p.user_id == uid

-- The role of the row, or the owner's. Who is neither was turned away before.
abbrev pub role_of : Bool → Option Participant → Role
role_of is_owner (some p) = p.role
role_of true none = Role.owner
role_of false none = Role.viewer

abbrev pub status_info : RecordingRow → RecordingStatusInfo
status_info r = record { recording_id = r.id; started_at = r.started_at }

unfoldable pub cleanup_orphan_session : Host → ℕ → AppState → AppState
cleanup_orphan_session host session_id w =
    let released = record w { hub = release_reservation session_id w.hub } in
    absorb (close_session host session_id CloseReason.error none released.database) released

module _ (variable : String → Option String) (default_shell : String) where
  unfoldable pub resolve_session_pty : Bool → Session → AppState → Resolved
  resolve_session_pty down session w = elim session.user_target_id [
    | some id ↦
        if down
        then Resolved.unresolved
            (ResolveError.storage (Message.about "failed to resolve user target " id ""))
        else found_or (Message.about "user target " id " not found") (resolve_by_id id w.database)
    | none ↦
        found_or (Message.quoting "target " session.target_name " not found")
          (resolve variable default_shell session.target_name w.targets)
  ]

module _ (host : Host) (spawned : Bool) (outage : Outage) (cols rows : ℕ) where
  -- The session may be gone from the hub again by now; the snapshot is empty then.
  abbrev pub snapshot_or_empty : Option (List ParticipantInfo) → List ParticipantInfo
  snapshot_or_empty none = []
  snapshot_or_empty (some ps) = ps

  abbrev pub recording_status : ℕ → AppState → Option RecordingStatusInfo
  recording_status session_id w =
      if outage.recording
      then none
      else map_option status_info (find_active_recording session_id w.database)

  abbrev pub attach :
      User → ℕ → Session → Role → Option SessionAttachment → AppState → Admission × AppState
  attach user session_id session role none w = (
    Admission.rejected "PTY_ERROR" (Message.text "failed to spawn"),
    cleanup_orphan_session host session_id w,
  )
  attach user session_id session role (some attachment) w =
      let joined = add_participant_and_snapshot user.id user.name role session_id w.hub in
      (
        Admission.attached (record {
          user = user;
          session = session;
          my_role = role;
          participants = snapshot_or_empty joined.0;
          attachment = attachment;
          recording = recording_status session_id w;
        }),
        record w { hub = joined.1 },
      )

  abbrev pub launch_session : User → ℕ → Session → Role → Resolved → AppState → Admission × AppState
  launch_session user session_id session role (Resolved.unresolved (ResolveError.not_found m)) w =
      (Admission.rejected "TARGET_NOT_FOUND" m, cleanup_orphan_session host session_id w)
  launch_session user session_id session role (Resolved.unresolved (ResolveError.storage m)) w =
      (Admission.rejected "STORAGE_ERROR" m, w)
  launch_session user session_id session role (Resolved.launch l) w =
      let started =
        start_or_join host.now session_id session.target_name cols rows spawned w.hub w.hub in
      attach user session_id session role started.0 (record w { hub = started.1 })

  module _ (variable : String → Option String) (default_shell : String) where
    -- With the rows of the participants.
    unfoldable pub admit_member :
        User → ℕ → Session → Result (List Participant) → AppState → Admission × AppState
    admit_member user session_id session (err e) w = storage_failure w
    admit_member user session_id session (ok ps) w =
        let is_owner = session.owner_id == user.id in
        let me = find (is_me user.id) ps in
        if not is_owner && not (is_some me)
        then (
          Admission.rejected "NOT_PARTICIPANT"
              (Message.text "you are not a participant of this session"),
          w,
        )
        else launch_session user session_id session (role_of is_owner me)
            (resolve_session_pty variable default_shell outage.target session w) w

    -- With the row of the session.
    unfoldable pub admit_session :
        User → ℕ → Result (Option Session) → AppState → Admission × AppState
    admit_session user session_id (err e) w = storage_failure w
    admit_session user session_id (ok none) w = (
      Admission.rejected "SESSION_NOT_FOUND" (Message.about "session " session_id " not found"),
      w,
    )
    admit_session user session_id (ok (some session)) w =
        if not (is_active session.status)
        then (Admission.rejected "SESSION_CLOSED" (Message.text "this session has been closed"), w)
        else admit_member user session_id session
            (reading outage.participants (list_participants session_id w.database)) w

    unfoldable pub admit_user : User → ℕ → AppState → Admission × AppState
    admit_user user session_id w =
        if strays user.scoped_session_id session_id
        then (
          Admission.rejected "NOT_PARTICIPANT"
              (Message.text "guest token is not valid for this session"),
          w,
        )
        else if not user.session_enabled && not user.is_admin
        then (
          Admission.rejected "SESSION_DISABLED" (Message.text "account is pending admin approval"),
          audit_session_access_denied user "WS /ws/session/{id}" (some session_id) w,
        )
        else admit_session user session_id
            (reading outage.session (get_session session_id w.database)) w

abbrev pub admit_known :
    (User → AppState → Admission × AppState) → Result User → AppState → Admission × AppState
admit_known next (err e) w = (Admission.rejected "AUTH_FAILED" (Message.text "invalid token"), w)
admit_known next (ok user) w = next user w

-- The first frame; `none` is the time-out, the end of the stream or an error.
unfoldable pub admit :
    (ℕ → ℕ)
    → (variable : String → Option String) (default_shell : String) → Host
    → (spawned : Bool) → Outage
    → ℕ
    → Option Frame
    → AppState
    → Admission × AppState
admit token_sha256 variable default_shell host spawned outage session_id
      (some (Frame.text (some (ClientMessage.session_join s token cols rows)))) w =
    admit_known
      (λ user. admit_user host spawned outage cols rows variable default_shell user session_id)
      (validate_token token_sha256 token w.database) w
admit token_sha256 variable default_shell host spawned outage session_id (some (Frame.text m)) w =
    (Admission.rejected "EXPECTED_JOIN" (Message.text "first message must be SessionJoin"), w)
admit token_sha256 variable default_shell host spawned outage session_id other w =
    (Admission.rejected "AUTH_TIMEOUT" (Message.text "expected SessionJoin within 5 seconds"), w)
