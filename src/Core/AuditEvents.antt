-- ===== src/Core/AuditEvents.antt =====
-- crates/telepair-core/src/audit.rs: the kinds of audit events and their text form.
use telepair.Base.{
  ◌⊎◌, inl, inr, ◌≡◌, refl, sym, ◌∙◌, String, concat, str_eq, true, if◌then◌else◌, Bool-cases,
  eq_iff, arith,
}

pub data AuditEventType : Type 0 where
  session_created : AuditEventType
  session_closed : AuditEventType
  participant_joined : AuditEventType
  invite_minted : AuditEventType
  invite_redeemed : AuditEventType
  invite_revoked : AuditEventType
  target_access_denied : AuditEventType
  target_reloaded : AuditEventType
  auth_login_failed : AuditEventType
  auth_register_rejected : AuditEventType
  auth_register_completed : AuditEventType
  auth_verify_failed : AuditEventType
  auth_user_enabled : AuditEventType
  auth_user_disabled : AuditEventType
  auth_session_access_denied : AuditEventType
  auth_password_changed : AuditEventType
  participant_role_changed : AuditEventType
  auth_admin_user_created : AuditEventType
  recording_started : AuditEventType
  recording_stopped : AuditEventType

unfoldable pub audit_event_as_str : AuditEventType → String
audit_event_as_str AuditEventType.session_created = "session.created"
audit_event_as_str AuditEventType.session_closed = "session.closed"
audit_event_as_str AuditEventType.participant_joined = "participant.joined"
audit_event_as_str AuditEventType.invite_minted = "invite.minted"
audit_event_as_str AuditEventType.invite_redeemed = "invite.redeemed"
audit_event_as_str AuditEventType.invite_revoked = "invite.revoked"
audit_event_as_str AuditEventType.target_access_denied = "target.access_denied"
audit_event_as_str AuditEventType.target_reloaded = "target.reloaded"
audit_event_as_str AuditEventType.auth_login_failed = "auth.login_failed"
audit_event_as_str AuditEventType.auth_register_rejected = "auth.register_rejected"
audit_event_as_str AuditEventType.auth_register_completed = "auth.register_completed"
audit_event_as_str AuditEventType.auth_verify_failed = "auth.verify_failed"
audit_event_as_str AuditEventType.auth_user_enabled = "auth.user_enabled"
audit_event_as_str AuditEventType.auth_user_disabled = "auth.user_disabled"
audit_event_as_str AuditEventType.auth_session_access_denied = "auth.session_access_denied"
audit_event_as_str AuditEventType.auth_password_changed = "auth.password_changed"
audit_event_as_str AuditEventType.participant_role_changed = "participant.role_changed"
audit_event_as_str AuditEventType.auth_admin_user_created = "auth.admin_user_created"
audit_event_as_str AuditEventType.recording_started = "recording.started"
audit_event_as_str AuditEventType.recording_stopped = "recording.stopped"

-- `Err` carries the message.
unfoldable pub audit_event_from_str : String → AuditEventType ⊎ String
audit_event_from_str s =
    if str_eq s "session.created"
    then inl AuditEventType.session_created
    else if str_eq s "session.closed"
    then inl AuditEventType.session_closed
    else if str_eq s "participant.joined"
    then inl AuditEventType.participant_joined
    else if str_eq s "invite.minted"
    then inl AuditEventType.invite_minted
    else if str_eq s "invite.redeemed"
    then inl AuditEventType.invite_redeemed
    else if str_eq s "invite.revoked"
    then inl AuditEventType.invite_revoked
    else if str_eq s "target.access_denied"
    then inl AuditEventType.target_access_denied
    else if str_eq s "target.reloaded"
    then inl AuditEventType.target_reloaded
    else if str_eq s "auth.login_failed"
    then inl AuditEventType.auth_login_failed
    else if str_eq s "auth.register_rejected"
    then inl AuditEventType.auth_register_rejected
    else if str_eq s "auth.register_completed"
    then inl AuditEventType.auth_register_completed
    else if str_eq s "auth.verify_failed"
    then inl AuditEventType.auth_verify_failed
    else if str_eq s "auth.user_enabled"
    then inl AuditEventType.auth_user_enabled
    else if str_eq s "auth.user_disabled"
    then inl AuditEventType.auth_user_disabled
    else if str_eq s "auth.session_access_denied"
    then inl AuditEventType.auth_session_access_denied
    else if str_eq s "auth.password_changed"
    then inl AuditEventType.auth_password_changed
    else if str_eq s "participant.role_changed"
    then inl AuditEventType.participant_role_changed
    else if str_eq s "auth.admin_user_created"
    then inl AuditEventType.auth_admin_user_created
    else if str_eq s "recording.started"
    then inl AuditEventType.recording_started
    else if str_eq s "recording.stopped"
    then inl AuditEventType.recording_stopped
    else inr (concat "unknown audit event type: " s)

pub audit_event_from_str-as_str :
    (x : AuditEventType) → audit_event_from_str (audit_event_as_str x) ≡ inl x
unfolding audit_event_as_str audit_event_from_str
audit_event_from_str-as_str AuditEventType.session_created = refl
audit_event_from_str-as_str AuditEventType.session_closed = refl
audit_event_from_str-as_str AuditEventType.participant_joined = refl
audit_event_from_str-as_str AuditEventType.invite_minted = refl
audit_event_from_str-as_str AuditEventType.invite_redeemed = refl
audit_event_from_str-as_str AuditEventType.invite_revoked = refl
audit_event_from_str-as_str AuditEventType.target_access_denied = refl
audit_event_from_str-as_str AuditEventType.target_reloaded = refl
audit_event_from_str-as_str AuditEventType.auth_login_failed = refl
audit_event_from_str-as_str AuditEventType.auth_register_rejected = refl
audit_event_from_str-as_str AuditEventType.auth_register_completed = refl
audit_event_from_str-as_str AuditEventType.auth_verify_failed = refl
audit_event_from_str-as_str AuditEventType.auth_user_enabled = refl
audit_event_from_str-as_str AuditEventType.auth_user_disabled = refl
audit_event_from_str-as_str AuditEventType.auth_session_access_denied = refl
audit_event_from_str-as_str AuditEventType.auth_password_changed = refl
audit_event_from_str-as_str AuditEventType.participant_role_changed = refl
audit_event_from_str-as_str AuditEventType.auth_admin_user_created = refl
audit_event_from_str-as_str AuditEventType.recording_started = refl
audit_event_from_str-as_str AuditEventType.recording_stopped = refl

pub str_eq→eq : (s t : String) → str_eq s t ≡ true → s ≡ t
str_eq→eq s t h = ground (arith, eq_iff s t)

-- The texts that this answer reads as a value are the text of that value.
Reads : String → AuditEventType ⊎ String → Type 0
Reads s answer = (x : AuditEventType) → answer ≡ inl x → audit_event_as_str x ≡ s

-- One arm of `from_str`, and the arms behind it.
arm :
    (s t : String) (c : AuditEventType) (rest : AuditEventType ⊎ String)
    → audit_event_as_str c ≡ t
    → Reads s rest
    → Reads s (if str_eq s t then inl c else rest)
unfolding Reads
arm s t c rest written go_on x h = elim (Bool-cases (str_eq s t)) [
  | inl same ↦
      let found : c ≡ x = ground (arith, h, same) in
      rw (← found) (written ∙ sym (str_eq→eq s t same))
  | inr other ↦ go_on x (ground (arith, h, other))
]

refused : (s why : String) → Reads s (inr why)
unfolding Reads
refused s why x h = cc

reads : (s : String) → Reads s (audit_event_from_str s)
unfolding audit_event_as_str audit_event_from_str
reads s =
    let reads_rest = refused s _ in
    let reads_rest = arm s "recording.stopped" AuditEventType.recording_stopped _ refl reads_rest in
    let reads_rest = arm s "recording.started" AuditEventType.recording_started _ refl reads_rest in
    let reads_rest =
      arm s "auth.admin_user_created" AuditEventType.auth_admin_user_created _ refl reads_rest in
    let reads_rest =
      arm s "participant.role_changed" AuditEventType.participant_role_changed _ refl reads_rest in
    let reads_rest =
      arm s "auth.password_changed" AuditEventType.auth_password_changed _ refl reads_rest in
    let reads_rest =
      arm s "auth.session_access_denied" AuditEventType.auth_session_access_denied _ refl
        reads_rest in
    let reads_rest =
      arm s "auth.user_disabled" AuditEventType.auth_user_disabled _ refl reads_rest in
    let reads_rest = arm s "auth.user_enabled" AuditEventType.auth_user_enabled _ refl reads_rest in
    let reads_rest =
      arm s "auth.verify_failed" AuditEventType.auth_verify_failed _ refl reads_rest in
    let reads_rest =
      arm s "auth.register_completed" AuditEventType.auth_register_completed _ refl reads_rest in
    let reads_rest =
      arm s "auth.register_rejected" AuditEventType.auth_register_rejected _ refl reads_rest in
    let reads_rest = arm s "auth.login_failed" AuditEventType.auth_login_failed _ refl reads_rest in
    let reads_rest = arm s "target.reloaded" AuditEventType.target_reloaded _ refl reads_rest in
    let reads_rest =
      arm s "target.access_denied" AuditEventType.target_access_denied _ refl reads_rest in
    let reads_rest = arm s "invite.revoked" AuditEventType.invite_revoked _ refl reads_rest in
    let reads_rest = arm s "invite.redeemed" AuditEventType.invite_redeemed _ refl reads_rest in
    let reads_rest = arm s "invite.minted" AuditEventType.invite_minted _ refl reads_rest in
    let reads_rest =
      arm s "participant.joined" AuditEventType.participant_joined _ refl reads_rest in
    let reads_rest = arm s "session.closed" AuditEventType.session_closed _ refl reads_rest in
    arm s "session.created" AuditEventType.session_created _ refl reads_rest

pub audit_event_as_str-from_str :
    (s : String) (x : AuditEventType) → audit_event_from_str s ≡ inl x → audit_event_as_str x ≡ s
unfolding Reads
audit_event_as_str-from_str s x h = reads s x h
