-- ===== src/Storage/Sessions/Closing.antt =====
-- What closing a session does to those who take part in it.
use telepair.Base.{
  ℕ, true, false, ◌&&◌, ◌≡◌, ◌≢◌, refl, none, arith, ◌==◌, List, [], ◌∷◌, if◌then◌else◌,
}
use telepair.Base.Rows.{find, update_where}
use telepair.Core.Failure.{Error, ok, err}
use telepair.Core.Status.{CloseReason, is_active}
use telepair.Core.Records.{Session, Participant}
use telepair.Storage.Db.{Database, Host, is_null}
use telepair.Storage.Sessions.{
  open_session, session_alive, closed_row, left_row, close_session, present_participant,
  find_active_participant_role,
}

-- After the close its session is not active, and every other is as before.
pub session_alive-close :
    (now id other : ℕ) (reason : CloseReason) (ss : List Session)
    → session_alive other (update_where (open_session id) (closed_row now reason) ss)
      ≡ (if id == other then false else session_alive other ss)
unfolding find update_where is_active
session_alive-close now id other reason [] = ground arith
session_alive-close now id other reason (s ∷ ss) =
    ground (arith, session_alive-close now id other reason ss)

-- Nobody has a role in a session that is not active.
no_role_when_closed :
    (id user : ℕ) (ss : List Session) (ps : List Participant)
    → session_alive id ss ≡ false
    → find (λ p. present_participant id user p && session_alive p.session_id ss) ps ≡ none
unfolding find
no_role_when_closed id user ss [] dead = refl
no_role_when_closed id user ss (p ∷ ps) dead =
    let same : p.session_id ≡ id → session_alive p.session_id ss ≡ false = λ e. rw e dead in
    ground (arith, same, no_role_when_closed id user ss ps dead)

role_elsewhere :
    (now id other user : ℕ) (reason : CloseReason) (ss : List Session) (ps : List Participant)
    → id ≢ other
    → find
        (λ p.
          present_participant other user p
          && session_alive p.session_id (update_where (open_session id) (closed_row now reason) ss))
        (update_where (λ p. p.session_id == id && is_null p.left_at) (left_row now) ps)
      ≡ find (λ p. present_participant other user p && session_alive p.session_id ss) ps
unfolding find update_where
role_elsewhere now id other user reason ss [] apart = refl
role_elsewhere now id other user reason ss (p ∷ ps) apart = ground (
  arith,
  session_alive-close now id p.session_id reason ss,
  role_elsewhere now id other user reason ss ps apart,
)

abbrev after_close : Host → ℕ → CloseReason → Database → Database
after_close host id reason db = record db {
  sessions = update_where (open_session id) (closed_row host.now reason) db.sessions;
  participants =
      update_where (λ p. p.session_id == id && is_null p.left_at) (left_row host.now)
        db.participants;
}

pub close_session_inv :
    (host : Host) (id : ℕ) (reason : CloseReason) (db : Database) {db' : Database}
    → close_session host id reason db ≡ ok (tt, db')
    → (session_alive id db.sessions ≡ true) × (db' ≡ after_close host id reason db)
unfolding close_session
close_session_inv host id reason db h = ground arith

module _ (host : Host) (id : ℕ) (reason : CloseReason) (db : Database) {db' : Database} where
  -- A close that succeeds takes every role in the session away, a second close of it is refused
  -- as not found, and the roles in every other session are as they were.
  pub close_session_revokes :
      close_session host id reason db ≡ ok (tt, db')
      → ((user : ℕ) → find_active_participant_role id user db' ≡ none)
        × ((later : Host) (again : CloseReason)
            → close_session later id again db' ≡ err (Error.session_not_found id))
        × ((other user : ℕ)
            → id ≢ other
            → find_active_participant_role other user db'
              ≡ find_active_participant_role other user db)
  unfolding close_session find_active_participant_role
  close_session_revokes h =
      let e = (close_session_inv host id reason db h).1 in
      let dead : session_alive id (after_close host id reason db).sessions ≡ false =
        ground (arith, session_alive-close host.now id id reason db.sessions) in
      (
        λ user. rw e (rw (no_role_when_closed id user _ _ dead)),
        λ later again. rw e (rw dead),
        λ other user apart.
            rw e
              (rw (role_elsewhere host.now id other user reason db.sessions db.participants apart)),
      )
