-- ===== src/Tests/Requests.antt =====
-- The theorems on the services over the store, at the small database.
use telepair.Base.{
  ℕ, ◌-◌, if◌then◌else◌, map_option, ◌≡◌, refl, true, false, none, some, [], ◌∷◌, String, ◌==◌,
  ◌||◌, ◌&&◌, ◌⊎◌,
}
use telepair.Base.Rows.{find, update_where, count_where}
use telepair.Core.Failure.{ok, err, Error}
use telepair.Core.Role.{Role, role_eq}
use telepair.Core.Status.{SessionStatus, CloseReason, is_active}
use telepair.Core.Records.{User, UserTarget, Session, SessionListFilter}
use telepair.Storage.{Database, Host, insert_user_row}
use telepair.Storage.Sessions.{get_session, session_alive, find_active_participant_role, upsert_row}
use telepair.Storage.Invites.{
  create_invite, find_invite, redeem_invite, consumable, join_session, resolve_identity,
}
use telepair.Control.Audit.{AuditEntry, Outcome}
use telepair.Control.Sessions.{
  close_session_by_user, require_active_owned, require_owner, get_session_required,
}
use telepair.Storage.UserTargets.{
  update_user_target, delete_user_target, find_user_target_by_id, edited,
}
use telepair.Storage.UserTargets.Verdict.{mutations_checked, objection}
use telepair.Storage.UserTargets.Pinned.{Edit, edit_all, Pinned, edit_all-Pinned}
use telepair.Control.Sessions.Closing.{close_session_by_user-granted}
use telepair.Storage.Listings.{concerns, passes}
use telepair.Control.Listings.{list_sessions_visible_to}
use telepair.Control.Listings.Visible.{listing_exact}
use telepair.Control.Invites.{CreateInviteParams, CreateInviteResult, create, mint, resolve_expiry}
use telepair.Control.Invites.Ttl.{create_lifetimes}
use telepair.Control.Redeem.{redeem_existing, redeem_new, redeem_as_guest, preview, RedeemResult}
use telepair.Control.Redeem.Granted.{Entered, redeem_existing-granted}
use telepair.Control.Redeem.Guests.{Granted, redeem_new-joins}
use telepair.Tests.Fixtures.{sha, at, account, shell, database, box}

abbrev ada : User
ada = (account 1 "ada" 11).user

abbrev bob : User
bob = (account 2 "bob" 22).user

abbrev texts : UserTarget
texts = edited 9 "Box" "ssh" [] [] [] box

abbrev edited_database : Database
edited_database = record database { user_targets = texts ∷ [] }

mutations_checked_example :
    ((e : Error)
      → objection 90 1 database (some box) ≡ some e
      → (update_user_target (at 9) 90 1 "Box" "ssh" [] [] [] database ≡ err e)
        × (delete_user_target 90 1 database ≡ err e))
    × (objection 90 1 database (some box) ≡ none
        → (t : UserTarget) × (some box ≡ some t)
          × (edited_db : Database) × (update_user_target (at 9) 90 1 "Box" "ssh" [] [] [] database
              ≡ ok (edited 9 "Box" "ssh" [] [] [] t, edited_db))
          × (find_user_target_by_id 90 edited_db ≡ some (edited 9 "Box" "ssh" [] [] [] t))
          × (deleted_db : Database) × (delete_user_target 90 1 database ≡ ok (tt, deleted_db))
          × (find_user_target_by_id 90 deleted_db ≡ none))
unfolding find_user_target_by_id find
mutations_checked_example = mutations_checked (at 9) 90 1 "Box" "ssh" [] [] [] database (refl, tt)

-- Ada's session runs on her target.
abbrev on_box : Database
on_box = record database { sessions = record shell { user_target_id = some 90 } ∷ [] }

edit_all-Pinned_example :
    Pinned 90 box
      (edit_all (Edit.delete 90 1 ∷ Edit.update (at 9) 90 1 "Box" "ssh" [] [] [] ∷ []) on_box)
unfolding find_user_target_by_id find is_active
edit_all-Pinned_example =
    edit_all-Pinned 90 box (Edit.delete 90 1 ∷ Edit.update (at 9) 90 1 "Box" "ssh" [] [] [] ∷ [])
      on_box (refl, refl)

close_session_by_user-granted_example :
    ((close_session_by_user (at 9) ada 7 database database).answer ≡ ok tt
      → (s : Session) × (get_session 7 database ≡ some s)
        × (s.owner_id == 1 || false ≡ true)
        × (is_active s.status ≡ true
            → session_alive 7
                (close_session_by_user (at 9) ada 7 database database).database.sessions
              ≡ false)
        × (((close_session_by_user (at 9) ada 7 database database).database ≡ database)
              × ((close_session_by_user (at 9) ada 7 database database).audit ≡ [])
            ⊎ (session_alive 7 database.sessions ≡ true)
              × ((close_session_by_user (at 9) ada 7 database database).audit
                  ≡ AuditEntry.session_closed
                      (some 1)
                      7
                      (if s.owner_id == 1 then CloseReason.owner else CloseReason.admin)
                      (map_option (λ (t : Session). 9 - t.created_at) (get_session 7 database))
                    ∷ [])))
    × ((e : Error)
        → (close_session_by_user (at 9) ada 7 database database).answer ≡ err e
        → ((close_session_by_user (at 9) ada 7 database database).database ≡ database)
          × ((close_session_by_user (at 9) ada 7 database database).audit ≡ []))
close_session_by_user-granted_example = close_session_by_user-granted (at 9) ada 7 database database

abbrev for_an_hour : CreateInviteParams
for_an_hour = record {
  role = Role.viewer;
  max_uses = 1;
  expires_in_minutes = none;
  expires_in_secs = some 3600;
  expires_at = none;
}

-- The longest `TimeDelta`, in seconds.
abbrev duration_max : ℕ
duration_max = 9223372036854775

abbrev minted : Outcome CreateInviteResult
minted = mint sha (at 9) ada 7 for_an_hour (some 3609) database

abbrev hour_long : CreateInviteResult
hour_long = record {
  session_id = 7;
  token = 70;
  role = for_an_hour.role;
  max_uses = for_an_hour.max_uses;
  expires_at = some 3609;
}

create_lifetimes_example :
    find_invite sha 70 minted.database
    ≡ ok (record {
      token_sha256 = sha 70;
      session_id = 7;
      role = for_an_hour.role;
      max_uses = for_an_hour.max_uses;
      used_count = 0;
      expires_at = some 3609;
      created_at = some 9;
    })
unfolding require_active_owned require_owner get_session_required get_session find role_eq is_active
    create resolve_expiry mint create_invite
create_lifetimes_example =
    (create_lifetimes sha duration_max (at 9) ada 7 for_an_hour database minted hour_long refl
      refl).6

abbrev as_viewer : RedeemResult
as_viewer = record { session_id = 7; role = Role.viewer; issued_token = none }

redeem_existing-granted_example :
    Entered sha (at 9) bob 9 database as_viewer (redeem_existing sha (at 9) bob 9 database)
unfolding redeem_existing preview find_invite get_session_required get_session find is_active
    find_active_participant_role redeem_invite consumable update_where join_session resolve_identity
    upsert_row
redeem_existing-granted_example =
    redeem_existing-granted sha (at 9) bob 9 database as_viewer (refl, tt) (refl, tt) refl

abbrev guest_draws : ℕ → Host × String
guest_draws k = (at 9, "guest")

abbrev as_guest : RedeemResult
as_guest = record { session_id = 7; role = Role.viewer; issued_token = some 70 }

redeem_new-joins_example :
    Granted sha guest_draws 9 database as_guest (redeem_new sha guest_draws 9 database).database
unfolding redeem_new preview find_invite get_session_required get_session find is_active
    redeem_as_guest redeem_invite consumable update_where join_session resolve_identity upsert_row
    insert_user_row
redeem_new-joins_example =
    (redeem_new-joins sha guest_draws 9 database (refl, tt) (refl, tt)).0 as_guest refl

abbrev active_ones : SessionListFilter
active_ones = record {
  status = some SessionStatus.active;
  target_name = none;
  limit = none;
  offset = 0;
}

listing_exact_example :
    count_where (λ s. s.id == 7) (list_sessions_visible_to ada active_ones database)
    ≡ count_where
        (λ s. concerns 1 database s && passes active_ones s && s.id == 7)
        database.sessions
listing_exact_example =
    (listing_exact ada active_ones database).2 refl refl refl refl (λ s. s.id == 7)
