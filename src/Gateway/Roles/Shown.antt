-- ===== src/Gateway/Roles/Shown.antt =====
-- The roles that the hub and the store show after a change of one role through http.rs.
use telepair.Base.{
  List, [], ◌∷◌, ℕ, ◌≡◌, refl, Bool, true, false, ◌&&◌, none, some, arith, Option-cases, Bool-cases,
  inl, inr, ◌==◌, map_option, if◌then◌else◌,
}
use telepair.Base.Rows.{find, find_holds, update_where}
use telepair.Base.Dict.{get, get-insert}
use telepair.Core.Role.{Role, role_eq, role_eq→eq}
use telepair.Core.Failure.{ok}
use telepair.Core.Records.{Participant}
use telepair.Storage.{Database}
use telepair.Storage.Sessions.{
  find_active_participant_role, present_participant, participant_is, session_alive, upsert_row,
}
use telepair.Hub.Live
use telepair.Hub.Live.{LiveSession}
use telepair.Hub.Sessions.{Sessions, SessionEntry, get_live, with_live, get_participant_role}

-- The change in one live session.
live_role :
    (uid other : ℕ) (role : Role) (l : LiveSession)
    → map_option (λ p. p.role) (get other (Live.update_participant_role uid role l).1.participants)
      ≡ (if other == uid
          then map_option (λ p. role) (get other l.participants)
          else map_option (λ p. p.role) (get other l.participants))
unfolding Live.update_participant_role
live_role uid other role l = elim (Option-cases (get uid l.participants)) [
  | inl absent ↦ ground (arith, absent)
  | inr (p, found) ↦ elim (Bool-cases (role_eq p.role role)) [
    | inl same ↦ ground (arith, found, same, role_eq→eq p.role role same)
    | inr changed ↦
        ground
          (arith, found, changed, get-insert uid other (record p { role = role }) l.participants)
  ]
]

pub hub_role :
    (sid uid id other : ℕ) (role : Role) (m : Sessions)
    → get_participant_role id other
        (with_live false (Live.update_participant_role uid role) sid m).1
      ≡ (if id == sid && other == uid
          then map_option (λ r. role) (get_participant_role id other m)
          else get_participant_role id other m)
unfolding get_participant_role with_live get_live
hub_role sid uid id other role m = elim (Option-cases (get sid m)) [
  | inl absent ↦ ground (arith, absent)
  | inr (SessionEntry.pending name at, found) ↦ ground (arith, found)
  | inr (SessionEntry.live l, found) ↦
      let l' = (Live.update_participant_role uid role l).1 in
      rw
        (
          with_live,
          get_live,
          found,
          get_participant_role,
          get_live,
          get-insert sid id (SessionEntry.live l') m,
        )
        (elim (Bool-cases (sid == id)) [
          | inl same ↦
              let eq : sid ≡ id = ground arith in
              let here : get id m ≡ some (SessionEntry.live l) = rw (← eq) found in
              ground (arith, same, here, live_role uid other role l)
          | inr apart ↦ ground (arith, apart)
        ])
]

-- The upsert in the store.
alive_at :
    (a b : ℕ) (db : Database)
    → a ≡ b
    → session_alive a db.sessions ≡ true
    → session_alive b db.sessions ≡ true
alive_at a b db same alive = rw (← same) alive

pub alive_of :
    (sid uid : ℕ) (role : Role) (db : Database)
    → find_active_participant_role sid uid db ≡ some role
    → session_alive sid db.sessions ≡ true
unfolding find_active_participant_role
alive_of sid uid role db h =
    elim (Option-cases (
      find (λ p. present_participant sid uid p && session_alive p.session_id db.sessions)
        db.participants)) [
          | inl absent ↦ ground (arith, absent)
          | inr (p, found) ↦ ground (
            arith,
            find_holds
                (λ p. present_participant sid uid p && session_alive p.session_id db.sessions)
                db.participants p found,
            alive_at p.session_id sid db,
          )
        ]

other_after_update :
    (sid uid id other : ℕ) (role : Role) (q : ℕ → Bool) (ps : List Participant)
    → (id == sid && other == uid) ≡ false
    → find
        (λ p. present_participant id other p && q p.session_id)
        (update_where (participant_is sid uid) (λ p. record p { role = role; left_at = none }) ps)
      ≡ find (λ p. present_participant id other p && q p.session_id) ps
unfolding find update_where
other_after_update sid uid id other role q [] apart = refl
other_after_update sid uid id other role q (p ∷ ps) apart =
    ground (arith, apart, other_after_update sid uid id other role q ps apart)

pub other_roles :
    (sid uid id other now : ℕ) (role : Role) (db : Database) {db' : Database}
    → upsert_row sid uid role now db ≡ ok db'
    → (id == sid && other == uid) ≡ false
    → find_active_participant_role id other db' ≡ find_active_participant_role id other db
unfolding find_active_participant_role upsert_row find
other_roles sid uid id other now role db h apart = ground (
  arith,
  other_after_update sid uid id other role (λ k. session_alive k db.sessions) db.participants apart,
)
