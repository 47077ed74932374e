-- ===== src/Control/Listings.antt =====
-- crates/telepair-control/src/session_service.rs: which sessions a user is shown.
pub mod Visible
use telepair.Base.{ℕ, Bool, ◌&&◌, Option, none, some, List, [], ◌∷◌, if◌then◌else◌}
use telepair.Core.Records.{Session, User, SessionListFilter}
use telepair.Storage.{Database}
use telepair.Storage.Sessions.{get_session}
use telepair.Storage.Listings.{status_is, target_name_is, list_sessions_for_user, list_all_sessions}

-- A guest's one session, which is not paged.
abbrev pub scoped_listing : SessionListFilter → Option Session → List Session
scoped_listing filter none = []
scoped_listing filter (some s) =
    if status_is filter.status s
    then (if target_name_is filter.target_name s then s ∷ [] else [])
    else []

abbrev pub listing_for : User → Option ℕ → SessionListFilter → Database → List Session
listing_for user (some scope) filter db = scoped_listing filter (get_session scope db)
listing_for user none filter db = list_sessions_for_user user.id filter db

unfoldable pub list_sessions_visible_to : User → SessionListFilter → Database → List Session
list_sessions_visible_to user filter db =
    if user.is_admin
    then list_all_sessions filter db
    else listing_for user user.scoped_session_id filter db
