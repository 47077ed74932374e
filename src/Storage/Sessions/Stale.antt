-- ===== src/Storage/Sessions/Stale.antt =====
-- The recovery at start-up: which rows the close of stale sessions touches.
use telepair.Base.{ℕ, Bool, ◌&&◌, false, some, ◌≡◌, refl, ap, List, [], ◌∷◌, map, arith, length}
use telepair.Base.Rows.{find, select_where, update_where, count_where}
use telepair.Core.Status.{CloseReason, is_active}
use telepair.Core.Records.{Session, Participant}
use telepair.Storage.Db.{Database, Host, is_null}
use telepair.Storage.Sessions.{
  session_alive, active_row, closed_row, left_row, contains_id, close_stale_sessions,
}

abbrev pub id_of : Session → ℕ
id_of s = s.id

-- The ids returned by the UPDATE are those of the active sessions.
contains_id-select :
    (sid : ℕ) (ss : List Session)
    → contains_id (map id_of (select_where active_row ss)) sid ≡ session_alive sid ss
unfolding contains_id select_where find
contains_id-select sid [] = refl
contains_id-select sid (s ∷ ss) = ground (arith, contains_id-select sid ss)

update_congr :
    (p q : Participant → Bool) (f : Participant → Participant) (ps : List Participant)
    → ((r : Participant) → p r ≡ q r)
    → update_where p f ps ≡ update_where q f ps
unfolding update_where
update_congr p q f [] same = refl
update_congr p q f (r ∷ rs) same = ground (arith, same r, update_congr p q f rs same)

none_alive :
    (now sid : ℕ) (reason : CloseReason) (ss : List Session)
    → session_alive sid (update_where active_row (closed_row now reason) ss) ≡ false
unfolding find update_where is_active
none_alive now sid reason [] = refl
none_alive now sid reason (s ∷ ss) = ground (arith, none_alive now sid reason ss)

length-select :
    (ss : List Session)
    → length (map id_of (select_where active_row ss)) ≡ count_where active_row ss
unfolding select_where count_where
length-select [] = refl
length-select (s ∷ ss) = ground (arith, length-select ss)

-- The recovery at start-up leaves no session active and returns how many were. Of the participants
-- it marks as left exactly those who were present in a session that was active, whatever the times
-- at which other sessions were closed.
pub close_stale_exact :
    (host : Host) (reason : CloseReason) (db : Database)
    → let after = close_stale_sessions host reason db in
      ((sid : ℕ) → session_alive sid after.1.sessions ≡ false)
      × (after.0 ≡ count_where active_row db.sessions)
      × (after.1.participants
          ≡ update_where
              (λ p. is_null p.left_at && session_alive p.session_id db.sessions)
              (λ (p : Participant). record p { left_at = some host.now })
              db.participants)
unfolding close_stale_sessions
close_stale_exact host reason db = (
  λ sid. none_alive host.now sid reason db.sessions,
  length-select db.sessions,
  update_congr _ _ (left_row host.now) db.participants
      (λ p. ap (λ b. is_null p.left_at && b) (contains_id-select p.session_id db.sessions)),
)
