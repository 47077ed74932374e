-- ===== src/Tests/Tables.antt =====
-- The theorems on the database, at the fixture.
use telepair.Base.{ℕ, ◌≡◌, ◌≤◌, refl, arith, true, false, none, some, [], ◌∷◌, List, map_option}
use telepair.Base.Rows.{find, update_where, exists_where, delete_where, count_where}
use telepair.Core.Failure.{err, Result, ok}
use telepair.Core.Role.{Role}
use telepair.Core.Status.{ApprovalState, RecordingStatus, CloseReason, is_active}
use telepair.Core.Records.{
  RedeemIdentity, RedeemOutcome, LoginFailureOutcome, User, RecordingRow, PendingVerifyResult,
}
use telepair.Storage.{Database, Host, UserRow, insert_user_row, user_id_is}
use telepair.Storage.Sessions.{close_session, find_active_participant_role, upsert_row}
use telepair.Storage.Sessions.Stale.{close_stale_exact}
use telepair.Storage.Sessions.{session_alive, close_stale_sessions}
use telepair.Storage.Invites.Lifecycle.{create_revoke_redeem}
use telepair.Storage.Invites.{create_invite, revoke_invite, invalid_token}
use telepair.Core.Records.{InviteToken}
use telepair.Storage.Sessions.Closing.{close_session_revokes}
use telepair.Storage.Invites.{
  redeem_invite, resolve_identity, join_session, diagnose, member_name, present, consumable,
}
use telepair.Storage.Invites.Redeem.{redeem_in_order, redeem_invite-redeem_in_order}
use telepair.Storage.Invites.Joining.{redeem_invite_joins}
use telepair.Storage.Invites.Again.{redeem_invite_again}
use telepair.Storage.Enabled.{Reach-AllApproved, here, next, enable}
use telepair.Storage.Accounts.Approval.{AllApproved}
use telepair.Storage.Recordings.{create_recording, active_in}
use telepair.Storage.Recordings.Active
use telepair.Storage.Recordings.Active.{Reach-OneActive}
use telepair.Storage.Accounts.{
  set_session_enabled, or_conflict, password_user, change_password_and_rotate_token,
  update_password_hash, rotate_token,
}
use telepair.Storage.Accounts.Passwords.{holder, change_password_rotates}
use telepair.Storage.Logins.{record_login_failure}
use telepair.Storage.Logins.Strikes.{row_of, fail_all, fifth_failure_locks, lock_holds}
use telepair.Storage.Pending.{verify_pending_registration, materialize}
use telepair.Storage.Pending.Success.{verify_success}
use telepair.Storage.Pending.Guessing.{pending_of, attempt_all, wrong_guesses_lock}
use telepair.Storage.Recordings.Shares.{visits, visits_bounded}
use telepair.Tests.Fixtures.{sha, at, database, after, answer, invite, account, registration, share}

abbrev closing : Result (Unit {0} × Database)
closing = close_session (at 10) 7 CloseReason.owner database

close_session_revokes_example : find_active_participant_role 7 1 (after closing) ≡ none
unfolding close_session find update_where is_active
close_session_revokes_example =
    (close_session_revokes (at 10) 7 CloseReason.owner database {db' = after closing} refl).0 1

members :
    (sid uid : ℕ)
    → present sid uid database ≡ true
    → exists_where (user_id_is uid) database.users ≡ true
unfolding find
members sid uid h = ground arith

redeem_invite-redeem_in_order_example :
    redeem_invite sha (at 10) 9 (RedeemIdentity.existing 2) database
    ≡ redeem_in_order sha (at 10) 9 (RedeemIdentity.existing 2) database
unfolding find
redeem_invite-redeem_in_order_example =
    redeem_invite-redeem_in_order sha (at 10) 9 (RedeemIdentity.existing 2) database (refl, tt)
      (refl, tt) members

abbrev redeemed : Result (RedeemOutcome × Database)
redeemed = redeem_invite sha (at 10) 9 (RedeemIdentity.existing 2) database

abbrev nobody : RedeemOutcome
nobody = record {
  invite = invite;
  user_id = 0;
  user_name = "";
  issued_token = none;
  was_already_member = true;
}

redeem_invite_joins_example : find_active_participant_role 7 2 (after redeemed) ≡ some Role.viewer
unfolding redeem_invite find update_where upsert_row join_session resolve_identity consumable
    is_active diagnose member_name
redeem_invite_joins_example =
    (redeem_invite_joins sha (at 10) 9 (RedeemIdentity.existing 2) database invite
      {out = answer nobody redeemed} {db' = after redeemed} (refl, tt) refl refl refl).5

redeem_invite_again_example :
    (again : RedeemOutcome) × (redeem_invite sha
        (at 500)
        9
        (RedeemIdentity.existing 2)
        (after redeemed)
      ≡ ok (again, after redeemed))
    × (again.was_already_member ≡ true)
    × (again.user_id ≡ 2)
unfolding redeem_invite find update_where upsert_row join_session resolve_identity consumable
    is_active diagnose member_name
redeem_invite_again_example =
    redeem_invite_again sha (at 10) (at 500) 9 2 database invite {out = answer nobody redeemed}
      {db' = after redeemed} (refl, tt) (refl, tt) refl refl

abbrev changed : Result (ℕ × Database)
changed = change_password_and_rotate_token sha (at 10) 1 "new" database

change_password_rotates_example : holder sha 70 (after changed) ≡ some 1
unfolding change_password_and_rotate_token update_password_hash rotate_token update_where find
change_password_rotates_example =
    (change_password_rotates sha (at 10) 1 "new" database {raw = 70} {db' = after changed}
      (refl, (refl, tt)) refl).0

abbrev times : List Host
times = at 10 ∷ at 11 ∷ at 12 ∷ at 13 ∷ []

fifth_failure_locks_example :
    (db' : Database) × (record_login_failure (at 14) 1 900 (fail_all 1 900 times database)
      ≡ ok (LoginFailureOutcome.locked 914, db'))
    × (map_option (λ (v : UserRow). v.login_locked_until) (row_of 1 db') ≡ some (some 914))
    × (map_option (λ (v : UserRow). v.login_locked_until) (row_of 1 (fail_all 1 900 times database))
        ≡ some none)
unfolding find
fifth_failure_locks_example =
    fifth_failure_locks 1 900 times (at 14) database (account 1 "ada" 11) (omega arith) refl refl
      refl refl

abbrev locked_row : UserRow
locked_row = record (account 1 "ada" 11) { login_failed_count = 5; login_locked_until = some 50 }

abbrev locked_db : Database
locked_db = record database { users = locked_row ∷ [] }

lock_holds_example : row_of 1 (fail_all 1 900 times locked_db) ≡ some locked_row
unfolding find
lock_holds_example =
    (lock_holds 1 900 times locked_db locked_row 50 refl refl
      (omega arith, (omega arith, (omega arith, (omega arith, tt))))).0

abbrev verified_reg : Result (PendingVerifyResult × Database)
verified_reg = verify_pending_registration sha (at 10) 800 4242 database

abbrev newcomer : User
newcomer = (password_user sha (at 10) 800 "cy" "hash" false false ApprovalState.pending).user

verify_success_example : pending_of 800 (after verified_reg) ≡ none
unfolding verify_pending_registration materialize insert_user_row or_conflict password_user find
    delete_where
verify_success_example =
    (verify_success sha (at 10) 800 4242 database registration {u = newcomer} {raw = 70}
      {db' = after verified_reg} (refl, tt) refl refl).9

abbrev guesses : List (Host × ℕ)
guesses = (at 10, 1) ∷ (at 11, 2) ∷ (at 12, 3) ∷ (at 13, 4) ∷ (at 14, 5) ∷ []

wrong_guesses_lock_example :
    verify_pending_registration sha (at 15) 800 4242 (attempt_all sha 800 guesses database)
    ≡ ok (PendingVerifyResult.locked, attempt_all sha 800 guesses database)
unfolding find
wrong_guesses_lock_example =
    wrong_guesses_lock sha 800 guesses database registration (refl, tt) refl (omega arith)
      (
        (omega arith, omega arith),
        (
          (omega arith, omega arith),
          (
            (omega arith, omega arith),
            ((omega arith, omega arith), ((omega arith, omega arith), tt)),
          ),
        ),
      )
      (omega arith) (at 15) 4242

visits_bounded_example : (visits 33 5 times database).0 ≡ 1
unfolding find
visits_bounded_example =
    visits_bounded 33 5 times database share (refl, tt) refl refl (omega arith) (omega arith)
      (refl, (refl, (refl, (refl, tt))))

Reach-AllApproved_example : AllApproved (after (set_session_enabled (at 10) 2 false database))
unfolding set_session_enabled find update_where
Reach-AllApproved_example =
    Reach-AllApproved sha {start = database} (λ e. refl, (λ e. refl, tt))
      (next here (
        enable (at 10) 2 false
          (record ((account 2 "bob" 22).user) { session_enabled = false; updated_at = 10 }) refl))

abbrev recorded : Result (RecordingRow × Database)
recorded = create_recording (at 10) 60 7 1 80 24 "a.cast" none database

abbrev recording_row : RecordingRow
recording_row = record {
  id = 60;
  session_id = 7;
  status = RecordingStatus.recording;
  file_path = some "a.cast";
  file_size = 0;
  duration_ms = none;
  width = 80;
  height = 24;
  event_count = 0;
  started_at = 10;
  completed_at = none;
  expires_at = none;
  created_by = 1;
}

Reach-OneActive_example : count_where (active_in 7) (after recorded).recordings ≤ 1
unfolding create_recording count_where find
Reach-OneActive_example =
    Reach-OneActive {start = database} {db = after recorded} (λ sid. omega arith)
      (Active.next Active.here
        (Active.create (at 10) 60 7 1 80 24 "a.cast" none recording_row refl))
      7

close_stale_exact_example :
    session_alive 7 (close_stale_sessions (at 10) CloseReason.startup database).1.sessions ≡ false
close_stale_exact_example = (close_stale_exact (at 10) CloseReason.startup database).0 7

abbrev created_invite : InviteToken
created_invite = record {
  token_sha256 = sha 70;
  session_id = 7;
  role = Role.operator;
  max_uses = 3;
  used_count = 0;
  expires_at = none;
  created_at = some 10;
}

abbrev with_invite : Database
with_invite = record database { invite_tokens = created_invite ∷ invite ∷ [] }

create_revoke_redeem_example :
    redeem_invite sha (at 20) 70 (RedeemIdentity.existing 2) (revoke_invite (sha 70) with_invite)
    ≡ err invalid_token
unfolding create_invite find
create_revoke_redeem_example =
    (create_revoke_redeem sha (at 10) (at 20) 7 3 Role.operator none database {i = created_invite}
      {raw = 70} {db' = with_invite} (RedeemIdentity.existing 2) refl).4
