-- ===== src/Gateway/Admission/Checked.antt =====
-- Whom the handshake of ws.rs lets in, and what it leaves when it does not.
use telepair.Base.{
  ℕ, ◌≡◌, refl, Bool, ◌||◌, ◌&&◌, not, true, false, Option, none, some, String, str_eq, arith, ◌==◌,
  is_some, Bool-cases, Option-cases, inl, inr, List, [], ◌∷◌, unwrap_or, map_option,
}
use telepair.Base.Rows.{find, select_where}
use telepair.Core.Role.{Role}
use telepair.Core.Failure.{Result, ok, err}
use telepair.Core.Status.{is_active, CloseReason}
use telepair.Core.Protocol.{ClientMessage}
use telepair.Core.Records.{User, Session, Participant}
use telepair.Storage.{Host, Database, is_null}
use telepair.Storage.Accounts.{validate_token}
use telepair.Storage.Sessions
use telepair.Storage.Sessions.{get_session, list_participants, session_alive}
use telepair.Storage.Sessions.Closing.{session_alive-close}
use telepair.Hub.Live.{SessionAttachment}
use telepair.Control.Redeem.{strays}
use telepair.Control.Sessions.{close_session}
use telepair.Gateway.World.{AppState, audit_session_access_denied}
use telepair.Gateway.Socket.{Frame}
use telepair.Gateway.Admission.{
  Outage, Admission, Resolved, ResolveError, reading, is_me, role_of, cleanup_orphan_session,
  attach, launch_session, admit_member, admit_session, admit_user, admit_known, admit,
}

-- The failures after which the session cannot be used any more.
abbrev pub launch_failed : String → Bool
launch_failed code = str_eq code "TARGET_NOT_FOUND" || str_eq code "PTY_ERROR"

-- The row of a user in a session that the user has not left.
abbrev pub present_row : (uid session_id : ℕ) → Database → Option Participant
present_row uid session_id db =
    find (λ p. (p.session_id == session_id && is_null p.left_at) && p.user_id == uid)
      db.participants

-- What the handshake for a session that began in `w` comes to.
abbrev pub Checked : (User → Type 0) → ℕ → AppState → Admission × AppState → Type 0
Checked Known session_id w (Admission.attached a, w') =
    Known a.user
    × (strays a.user.scoped_session_id session_id ≡ false)
    × (a.user.session_enabled || a.user.is_admin ≡ true)
    × (get_session session_id w.database ≡ some a.session)
    × (is_active a.session.status ≡ true)
    × (a.session.owner_id == a.user.id || is_some (present_row a.user.id session_id w.database)
        ≡ true)
    × (a.my_role
        ≡ unwrap_or (map_option (λ p. p.role) (present_row a.user.id session_id w.database))
            Role.owner)
    × (w'.database ≡ w.database)
Checked Known session_id w (Admission.rejected code m, w') =
    (launch_failed code ≡ false → (w'.database ≡ w.database) × (w'.hub ≡ w.hub))
    × (launch_failed code ≡ true → session_alive session_id w'.database.sessions ≡ false)

find-list_participants :
    (uid session_id : ℕ) (ps : List Participant)
    → find (is_me uid) (select_where (λ p. p.session_id == session_id && is_null p.left_at) ps)
      ≡ find (λ p. (p.session_id == session_id && is_null p.left_at) && p.user_id == uid) ps
unfolding find select_where
find-list_participants uid session_id [] = refl
find-list_participants uid session_id (p ∷ ps) =
    ground (arith, find-list_participants uid session_id ps)

-- Whoever has no row is the owner.
role_of-member :
    (is_owner : Bool) (row : Option Participant)
    → is_owner || is_some row ≡ true
    → role_of is_owner row ≡ unwrap_or (map_option (λ p. p.role) row) Role.owner
role_of-member is_owner (some p) member = refl
role_of-member true none member = refl
role_of-member false none member = cc

cleanup-closed :
    (host : Host) (session_id : ℕ) (w : AppState)
    → session_alive session_id (cleanup_orphan_session host session_id w).database.sessions ≡ false
unfolding cleanup_orphan_session close_session Sessions.close_session
cleanup-closed host session_id w = ground (
  arith,
  session_alive-close host.now session_id session_id CloseReason.error w.database.sessions,
)

module _ (host : Host) (spawned : Bool) (outage : Outage) (cols rows : ℕ)
    (variable : String → Option String) (default_shell : String) (session_id : ℕ) (user : User)
    (w : AppState) (Known : User → Type 0) (known : Known user) where
  -- What the checks before the launch establish.
  abbrev Passed : Session → Type 0
  Passed session =
      (strays user.scoped_session_id session_id ≡ false)
      × (user.session_enabled || user.is_admin ≡ true)
      × (get_session session_id w.database ≡ some session)
      × (is_active session.status ≡ true)

  abbrev me : Option Participant
  me = find (is_me user.id) (list_participants session_id w.database)

  attach-Checked :
      (session : Session) (o : Option SessionAttachment) (w' : AppState)
      → Passed session
      → session.owner_id == user.id || is_some me ≡ true
      → w'.database ≡ w.database
      → Checked Known session_id w (
          attach host spawned outage cols rows user session_id session
            (role_of (session.owner_id == user.id) me)
            o
            w')
  unfolding list_participants
  attach-Checked session none w' p member same = (λ h. cc, λ h. cleanup-closed host session_id w')
  attach-Checked session (some attachment) w' p member same =
      let shown : me ≡ present_row user.id session_id w.database =
        find-list_participants user.id session_id w.database.participants in
      (
        known,
        p.0,
        p.1,
        p.2,
        p.3,
        rw (← shown) member,
        rw (← shown) (role_of-member (session.owner_id == user.id) me member),
        same,
      )

  launch_session-Checked :
      (session : Session) (r : Resolved)
      → Passed session
      → session.owner_id == user.id || is_some me ≡ true
      → Checked Known session_id w (
          launch_session host spawned outage cols rows user session_id session
            (role_of (session.owner_id == user.id) me)
            r
            w)
  launch_session-Checked session (Resolved.unresolved (ResolveError.not_found m)) p member =
      (λ h. cc, λ h. cleanup-closed host session_id w)
  launch_session-Checked session (Resolved.unresolved (ResolveError.storage m)) p member =
      (λ h. (refl, refl), λ h. cc)
  launch_session-Checked session (Resolved.launch l) p member =
      attach-Checked session _ _ p member refl

  admit_member-Checked :
      (session : Session)
      → Passed session
      → Checked Known session_id w (
          admit_member host spawned outage cols rows variable default_shell user session_id session
            (reading outage.participants (list_participants session_id w.database))
            w)
  unfolding admit_member
  admit_member-Checked session p = elim (Bool-cases outage.participants) [
    | inl down ↦ rw down (λ h. (refl, refl), λ h. cc)
    | inr up ↦ elim (Bool-cases (session.owner_id == user.id || is_some me)) [
      | inl member ↦
          let asked : not (session.owner_id == user.id) && not (is_some me) ≡ false =
            ground arith in
          rw (up, asked) (launch_session-Checked session _ p member)
      | inr stranger ↦
          let asked : not (session.owner_id == user.id) && not (is_some me) ≡ true = ground arith in
          rw (up, asked) (λ h. (refl, refl), λ h. cc)
    ]
  ]

  admit_session-Checked :
      strays user.scoped_session_id session_id ≡ false
      → (user.session_enabled || user.is_admin ≡ true)
      → Checked Known session_id w (
          admit_session host spawned outage cols rows variable default_shell user session_id
            (reading outage.session (get_session session_id w.database))
            w)
  unfolding admit_session admit_member
  admit_session-Checked pinned enabled = elim (Bool-cases outage.session) [
    | inl down ↦ rw down (λ h. (refl, refl), λ h. cc)
    | inr up ↦ elim (Option-cases (get_session session_id w.database)) [
      | inl absent ↦ rw (up, absent) (λ h. (refl, refl), λ h. cc)
      | inr (session, found) ↦ elim (Bool-cases (is_active session.status)) [
        | inl active ↦
            rw (up, found, active) (admit_member-Checked session (pinned, enabled, found, active))
        | inr closed ↦ rw (up, found, closed) (λ h. (refl, refl), λ h. cc)
      ]
    ]
  ]

  admit_user-Checked :
      Checked Known session_id w
        (admit_user host spawned outage cols rows variable default_shell user session_id w)
  unfolding admit_user audit_session_access_denied
  admit_user-Checked = elim (Bool-cases (strays user.scoped_session_id session_id)) [
    | inl out ↦ rw out (λ h. (refl, refl), λ h. cc)
    | inr pinned ↦ elim (Bool-cases (user.session_enabled || user.is_admin)) [
      | inl enabled ↦
          let asked : not user.session_enabled && not user.is_admin ≡ false = ground arith in
          rw (pinned, asked) (admit_session-Checked pinned enabled)
      | inr disabled ↦
          let asked : not user.session_enabled && not user.is_admin ≡ true = ground arith in
          rw (pinned, asked) (λ h. (refl, refl), λ h. cc)
    ]
  ]

-- The user's token came in the first frame.
abbrev pub token_of : Option Frame → Option ℕ
token_of (some (Frame.text (some (ClientMessage.session_join s token cols rows)))) = some token
token_of _ = none

abbrev pub SentToken : (ℕ → ℕ) → AppState → Option Frame → User → Type 0
SentToken token_sha256 w first user =
    (token : ℕ) × (token_of first ≡ some token)
    × (validate_token token_sha256 token w.database ≡ ok user)

abbrev joining : ℕ → ℕ → ℕ → ℕ → Option Frame
joining s token cols rows = some (Frame.text (some (ClientMessage.session_join s token cols rows)))

admit_known-Checked :
    (Known : User → Type 0) (session_id : ℕ) (w : AppState)
    (next : User → AppState → Admission × AppState) (r : Result User)
    → ((user : User) → r ≡ ok user → Checked Known session_id w (next user w))
    → Checked Known session_id w (admit_known next r w)
admit_known-Checked Known session_id w next (err e) go_on = (λ h. (refl, refl), λ h. cc)
admit_known-Checked Known session_id w next (ok user) go_on = go_on user refl

-- Whatever the first frame is, and whichever look-ups or launches fail: a client that is attached
-- sent the token of its user in that frame, who may use sessions or is an administrator; a guest is
-- in their own session, the session is active, and the client owns it or has a row as a participant who has not left, whose role they then act in. A client that is
-- turned away leaves the database and the hub as they were, unless the target was missing or its
-- launch failed, and then the session is no longer active. So an outage of the store closes no
-- session.
pub admit-Checked :
    (token_sha256 : ℕ → ℕ) (variable : String → Option String) (default_shell : String)
    (host : Host) (spawned : Bool) (outage : Outage) (session_id : ℕ) (first : Option Frame)
    (w : AppState)
    → Checked
        (SentToken token_sha256 w first)
        session_id
        w
        (admit token_sha256 variable default_shell host spawned outage session_id first w)
unfolding admit
admit-Checked token_sha256 variable default_shell host spawned outage session_id none w =
    (λ h. (refl, refl), λ h. cc)
admit-Checked token_sha256 variable default_shell host spawned outage session_id
      (some (Frame.text none)) w =
    (λ h. (refl, refl), λ h. cc)
admit-Checked token_sha256 variable default_shell host spawned outage session_id
      (some (Frame.text (some (ClientMessage.session_join s token cols rows)))) w =
    admit_known-Checked (SentToken token_sha256 w (joining s token cols rows)) session_id w _
      (validate_token token_sha256 token w.database)
      (λ user good.
        admit_user-Checked host spawned outage cols rows variable default_shell session_id user w
          (SentToken token_sha256 w (joining s token cols rows)) (token, refl, good))
admit-Checked token_sha256 variable default_shell host spawned outage session_id
      (some (Frame.text (some (ClientMessage.term_resize cols rows)))) w =
    (λ h. (refl, refl), λ h. cc)
admit-Checked token_sha256 variable default_shell host spawned outage session_id
      (some (Frame.text (some (ClientMessage.chat_message said)))) w =
    (λ h. (refl, refl), λ h. cc)
admit-Checked token_sha256 variable default_shell host spawned outage session_id
      (some (Frame.binary bytes)) w =
    (λ h. (refl, refl), λ h. cc)
admit-Checked token_sha256 variable default_shell host spawned outage session_id (some Frame.close)
      w =
    (λ h. (refl, refl), λ h. cc)
admit-Checked token_sha256 variable default_shell host spawned outage session_id
      (some Frame.ping_pong) w =
    (λ h. (refl, refl), λ h. cc)
