-- ===== src/Control/Sessions/Owned.antt =====
-- What require_active_owned of session_service.rs lets through.
use telepair.Base.{ℕ, ◌≡◌, ◌==◌, true, some, arith, Option-cases, inl, inr}
use telepair.Core.Failure.{ok}
use telepair.Core.Status.{is_active}
use telepair.Core.Records.{User, Session}
use telepair.Storage.{Database}
use telepair.Storage.Sessions.{get_session}
use telepair.Control.Sessions.{require_active_owned, require_owner, get_session_required}

pub owned :
    (user : User) (sid : ℕ) (db : Database) (s : Session)
    → require_active_owned user sid db ≡ ok s
    → (get_session sid db ≡ some s) × (s.owner_id == user.id ≡ true) × (is_active s.status ≡ true)
unfolding require_active_owned require_owner get_session_required
owned user sid db s h = elim (Option-cases (get_session sid db)) [
  | inl absent ↦ ground (arith, absent)
  | inr (row, found) ↦ ground (arith, found)
]
