-- ===== src/Storage/Sessions/Joining.antt =====
-- What the participant upsert leaves behind.
use telepair.Base.{ℕ, true, ◌&&◌, ◌≡◌, none, some, arith, List, [], ◌∷◌, map_option}
use telepair.Base.Rows.{find, update_where, exists_where}
use telepair.Core.Failure.{ok}
use telepair.Core.Role.{Role}
use telepair.Core.Records.{Session, Participant}
use telepair.Storage.Db.{Database}
use telepair.Storage.Sessions.{
  session_alive, participant_is, present_participant, upsert_row, find_active_participant_role,
}

abbrev rejoined : Role → Participant → Participant
rejoined role p = record p { role = role; left_at = none }

role_after_update :
    (sid uid : ℕ) (role : Role) (ss : List Session) (ps : List Participant)
    → exists_where (participant_is sid uid) ps ≡ true
    → session_alive sid ss ≡ true
    → map_option
        (λ (p : Participant). p.role)
        (find
          (λ p. present_participant sid uid p && session_alive p.session_id ss)
          (update_where (participant_is sid uid) (rejoined role) ps))
      ≡ some role
unfolding find update_where
role_after_update sid uid role ss [] h alive = cc
role_after_update sid uid role ss (p ∷ ps) h alive =
    let same : p.session_id ≡ sid → session_alive p.session_id ss ≡ true = λ e. rw e alive in
    ground (arith, same, role_after_update sid uid role ss ps)

present_after_update :
    (sid uid : ℕ) (role : Role) (ps : List Participant)
    → exists_where (participant_is sid uid) ps ≡ true
    → exists_where
        (present_participant sid uid)
        (update_where (participant_is sid uid) (rejoined role) ps)
      ≡ true
unfolding find update_where
present_after_update sid uid role [] h = cc
present_after_update sid uid role (p ∷ ps) h = ground (arith, present_after_update sid uid role ps)

module _ (sid uid : ℕ) (role : Role) (now : ℕ) (db : Database) {db' : Database}
    (joined : upsert_row sid uid role now db ≡ ok db') where
  -- Only the participants change.
  pub upsert_row_frame :
      (db'.sessions ≡ db.sessions) × (db'.users ≡ db.users) × (db'.invite_tokens ≡ db.invite_tokens)
  unfolding upsert_row
  upsert_row_frame = ground arith

  pub upsert_row_present : exists_where (present_participant sid uid) db'.participants ≡ true
  unfolding upsert_row find
  upsert_row_present = ground (arith, present_after_update sid uid role db.participants)

  -- In an active session the participant has the role from then on.
  pub find_active_participant_role-upsert_row :
      session_alive sid db.sessions ≡ true → find_active_participant_role sid uid db' ≡ some role
  unfolding upsert_row find_active_participant_role find
  find_active_participant_role-upsert_row alive =
      ground (arith, role_after_update sid uid role db.sessions db.participants)
