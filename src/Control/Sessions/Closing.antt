-- ===== src/Control/Sessions/Closing.antt =====
-- What a user's request to close a session in session_service.rs comes to, with other tasks at work
-- between its look-up and its close.
use telepair.Base.{
  ℕ, ◌-◌, if◌then◌else◌, map_option, ◌≡◌, ◌⊎◌, inl, inr, ◌||◌, true, false, some, [], ◌∷◌, ◌==◌,
  arith, Option-cases, Bool-cases,
}
use telepair.Core.Failure.{Error, ok, err}
use telepair.Core.Status.{CloseReason, is_active}
use telepair.Core.Records.{Session, User}
use telepair.Storage.{Database, Host}
use telepair.Storage.Sessions
use telepair.Storage.Sessions.{session_alive, get_session}
use telepair.Storage.Sessions.Closing.{session_alive-close}
use telepair.Control.Audit.{AuditEntry, Outcome}
use telepair.Control.Sessions.{
  close_session, close_session_by_user, get_session_required, close_reason_for,
}

module _ (host : Host) (user : User) (id : ℕ) (db db' : Database) where
  abbrev outcome : Outcome (Unit {0})
  outcome = close_session_by_user host user id db db'

  -- A user's request to close a session looks it up in one state of the database and closes it in a
  -- later one. If it is granted, the session was there and the user owned it or is an administrator,
  -- and if it was active when looked up then it is not active afterwards, whoever closed it. If it
  -- is refused, the database and the audit log are as they were. A row is audited only for a close
  -- that this request made, with the owner's reason exactly for the owner.
  pub close_session_by_user-granted :
      ((outcome.answer ≡ ok tt)
        → (s : Session) × (get_session id db ≡ some s)
          × (s.owner_id == user.id || user.is_admin ≡ true)
          × (is_active s.status ≡ true → session_alive id outcome.database.sessions ≡ false)
          × ((outcome.database ≡ db') × (outcome.audit ≡ [])
              ⊎ (session_alive id db'.sessions ≡ true)
                × (outcome.audit
                    ≡ AuditEntry.session_closed
                        (some user.id)
                        id
                        (if s.owner_id == user.id then CloseReason.owner else CloseReason.admin)
                        (map_option (λ (t : Session). host.now - t.created_at) (get_session id db'))
                      ∷ [])))
      × ((e : Error) → outcome.answer ≡ err e → (outcome.database ≡ db') × (outcome.audit ≡ []))
  unfolding close_session_by_user close_session get_session_required Sessions.close_session
  close_session_by_user-granted = elim (Option-cases (get_session id db)) [
    | inl absent ↦ (λ h. ground arith, λ e h. ground arith)
    | inr (s, found) ↦ (
      λ h. (
        s,
        found,
        ground arith,
        λ active. ground (
          arith,
          session_alive-close host.now id id (close_reason_for (s.owner_id == user.id))
              db'.sessions,
        ),
        elim (Bool-cases (session_alive id db'.sessions)) [
          | inl alive ↦ ground arith
          | inr dead ↦ inl (ground arith)
        ],
      ),
      λ e h. ground arith,
    )
  ]
