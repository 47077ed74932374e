-- ===== src/Storage/Listings.antt =====
-- crates/telepair-core/src/storage/sqlite.rs: the listings of sessions, newest first. Sessions of one
-- instant come in the order of the table, of the orders that SQL allows. A limit is not negative.
use telepair.Base.{
  ℕ, zero, suc, Bool, ◌&&◌, ◌||◌, true, false, Option, none, some, List, [], ◌∷◌, String,
  if◌then◌else◌, ◌==◌, ltb, str_eq,
}
use telepair.Base.Rows.{select_where, exists_where, count_where}
use telepair.Core.Status.{SessionStatus, is_active}
use telepair.Core.Records.{Session, SessionListFilter}
use telepair.Storage.Db.{Database}
use telepair.Storage.Sessions.{participant_is, active_row}

abbrev pub same_status : SessionStatus → SessionStatus → Bool
same_status SessionStatus.active s = is_active s
same_status SessionStatus.closed s = if is_active s then false else true

abbrev pub status_is : Option SessionStatus → Session → Bool
status_is none s = true
status_is (some status) s = same_status status s.status

abbrev pub target_name_is : Option String → Session → Bool
target_name_is none s = true
target_name_is (some name) s = str_eq s.target_name name

unfoldable pub passes : SessionListFilter → Session → Bool
passes filter s = status_is filter.status s && target_name_is filter.target_name s

-- `s.owner_id = ? OR p.user_id IS NOT NULL`, also for a participant who has left.
unfoldable pub concerns : ℕ → Database → Session → Bool
concerns uid db s = s.owner_id == uid || exists_where (participant_is s.id uid) db.participants

-- `ORDER BY created_at DESC`
unfoldable pub insert_newest : Session → List Session → List Session
insert_newest s [] = s ∷ []
insert_newest s (r ∷ rs) =
    let later = insert_newest s rs in
    if ltb r.created_at s.created_at then s ∷ r ∷ rs else r ∷ later

unfoldable pub newest_first : List Session → List Session
newest_first [] = []
newest_first (s ∷ ss) = insert_newest s (newest_first ss)

-- `LIMIT ? OFFSET ?`
unfoldable pub skip : ℕ → List Session → List Session
skip zero ss = ss
skip (suc n) [] = []
skip (suc n) (s ∷ ss) = skip n ss

unfoldable pub at_most : ℕ → List Session → List Session
at_most zero ss = []
at_most (suc n) [] = []
at_most (suc n) (s ∷ ss) = s ∷ at_most n ss

abbrev pub limited : Option ℕ → List Session → List Session
limited none ss = ss
limited (some n) ss = at_most n ss

unfoldable pub page : SessionListFilter → List Session → List Session
page filter ss = limited filter.limit (skip filter.offset (newest_first ss))

unfoldable pub list_sessions_for_user : ℕ → SessionListFilter → Database → List Session
list_sessions_for_user uid filter db =
    page filter (select_where (λ s. concerns uid db s && passes filter s) db.sessions)

unfoldable pub list_all_sessions : SessionListFilter → Database → List Session
list_all_sessions filter db = page filter (select_where (passes filter) db.sessions)

-- The count of one target; the clamp to `u32` is left out, as a table has fewer rows.
unfoldable pub count_active_sessions_per_target : Database → String → ℕ
count_active_sessions_per_target db name =
    count_where (λ s. active_row s && str_eq s.target_name name) db.sessions
