-- ===== src/Gateway/Roles/Changed.antt =====
-- What a change of a role through http.rs leaves behind, in the store and in the hub.
use telepair.Base.{
  ℕ, ◌≡◌, refl, ap, ◌∙◌, true, false, ◌&&◌, ◌||◌, Option, none, some, arith, Option-cases,
  Bool-cases, inl, inr, ◌==◌, map_option,
}
use telepair.Core.Role.{Role, role_eq, role_eq→eq}
use telepair.Core.Failure.{Result, ok, err, >>=-eq-ok, Result-cases}
use telepair.Core.Status.{is_active}
use telepair.Core.Records.{User, Session, Participant}
use telepair.Storage.{Database, Host}
use telepair.Storage.Sessions.{
  find_active_participant_role, get_session, upsert_row, upsert_participant,
}
use telepair.Storage.Sessions.Joining.{find_active_participant_role-upsert_row}
use telepair.Hub.Live
use telepair.Hub.Live.{LiveSession}
use telepair.Hub.Sessions.{with_live, get_participant_role}
use telepair.Control.Sessions.{require_active_owned}
use telepair.Control.Sessions.Owned.{owned}
use telepair.Gateway.World.{
  AppState, ApiResult, extract_user, require_session_enabled, audit_session_access_denied, lift,
  check-rule,
}
use telepair.Gateway.Roles.{
  update_participant_role, update_role_as, change_role, replace_role, persisted,
}
use telepair.Gateway.Roles.Shown.{hub_role, alive_of, other_roles}

-- Whoever is in a live session of the hub has there the role that the store has.
abbrev pub InStep : AppState → Type 0
InStep w =
    (id uid : ℕ) (role : Role)
    → get_participant_role id uid w.hub ≡ some role
    → find_active_participant_role id uid w.database ≡ some role

-- What a request for another role comes to, that began in `w`.
abbrev pub Changed :
    (ℕ → ℕ)
    → (token : Option ℕ) (sid : ℕ) (target : Option ℕ) → Role
    → AppState
    → ApiResult (Unit {0})
    → AppState
    → Type 0
Changed token_sha256 token sid target role w (ApiResult.refused e) w' =
    (w'.database ≡ w.database) × (w'.hub ≡ w.hub)
Changed token_sha256 token sid target role w (ApiResult.granted u) w' =
    (user : User) × (s : Session) × (uid : ℕ) × (extract_user token_sha256 token w.database
      ≡ ApiResult.granted user)
    × (get_session sid w.database ≡ some s)
    × (s.owner_id == user.id ≡ true)
    × (is_active s.status ≡ true)
    × (target ≡ some uid)
    × (uid == user.id ≡ false)
    × (role_eq role Role.owner ≡ false)
    × (find_active_participant_role sid uid w'.database ≡ some role)
    × (get_participant_role sid uid w'.hub
        ≡ map_option (λ r. role) (get_participant_role sid uid w.hub))
    × InStep w'

-- The part of it that is about the target, once the caller is known.
abbrev Replaced : ℕ → ℕ → Role → AppState → ApiResult (Unit {0}) → AppState → Type 0
Replaced sid uid role w (ApiResult.refused e) w' = (w'.database ≡ w.database) × (w'.hub ≡ w.hub)
Replaced sid uid role w (ApiResult.granted u) w' =
    (find_active_participant_role sid uid w'.database ≡ some role)
    × (get_participant_role sid uid w'.hub
        ≡ map_option (λ r. role) (get_participant_role sid uid w.hub))
    × InStep w'

module _ (host : Host) (user : User) (sid : ℕ) (role : Role) (w : AppState) (k : InStep w) where
  -- The request changes nothing when the target has the role already.
  same_role :
      (uid : ℕ)
      → find_active_participant_role sid uid w.database ≡ some role
      → Replaced sid uid role w (ApiResult.granted tt) w
  same_role uid now_there = elim (Option-cases (get_participant_role sid uid w.hub)) [
    | inl absent ↦ (now_there, ground (arith, absent), k)
    | inr (r, found) ↦ (now_there, ground (arith, found, k sid uid r found), k)
  ]

  upserted :
      (uid : ℕ) (p : Participant) (db : Database)
      → upsert_participant host sid uid role w.database ≡ ok (p, db)
      → upsert_row sid uid role host.now w.database ≡ ok db
  unfolding upsert_participant
  upserted uid p db h =
      let (db', joined, done) = >>=-eq-ok (upsert_row sid uid role host.now w.database) _ h in
      ground (arith, joined, done)

  -- The hub after the change, against a database in which the target has the role and all others
  -- have theirs as before.
  stays-InStep :
      (uid : ℕ) (db : Database)
      → find_active_participant_role sid uid db ≡ some role
      → ((id other : ℕ)
          → (id == sid && other == uid) ≡ false
          → find_active_participant_role id other db
            ≡ find_active_participant_role id other w.database)
      → InStep (record w {
        database = db;
        hub = (with_live false (Live.update_participant_role uid role) sid w.hub).1;
      })
  stays-InStep uid db there rest id other r h =
      let hub_now = hub_role sid uid id other role w.hub in
      elim (Bool-cases (id == sid && other == uid)) [
        | inl same ↦
            let e : id ≡ sid = ground arith in
            let f : other ≡ uid = ground arith in
            let theirs : role ≡ r = ground (arith, same, hub_now) in rw (e, f, ← theirs) there
        | inr apart ↦ rest id other apart ∙ k id other r (ground (arith, apart, hub_now))
      ]

  persisted-Replaced :
      (uid : ℕ) (old : Role)
      → find_active_participant_role sid uid w.database ≡ some old
      → (r : Result (Participant × Database)) → upsert_participant host sid uid role w.database ≡ r
      → Replaced sid uid role w
          (persisted host user sid role uid old r w).answer
          (persisted host user sid role uid old r w).state
  persisted-Replaced uid old was (err e) h = (refl, refl)
  persisted-Replaced uid old was (ok (p, db)) h =
      let joined = upserted uid p db h in
      let alive = alive_of sid uid old w.database was in
      let there =
        find_active_participant_role-upsert_row sid uid role host.now w.database joined alive in
      (
        there,
        ground (arith, hub_role sid uid sid uid role w.hub),
        stays-InStep uid db there
            (λ id other apart. other_roles sid uid id other host.now role w.database joined apart),
      )

  replace_role-Replaced :
      (uid : ℕ) (old : Option Role)
      → find_active_participant_role sid uid w.database ≡ old
      → Replaced sid uid role w
          (replace_role host user sid role uid old w).answer
          (replace_role host user sid role uid old w).state
  unfolding replace_role
  replace_role-Replaced uid none was = (refl, refl)
  replace_role-Replaced uid (some old) was = elim (Bool-cases (role_eq old role)) [
    | inl same ↦ rw same (same_role uid (was ∙ ap some (role_eq→eq old role same)))
    | inr changed ↦ rw changed (persisted-Replaced uid old was _ refl)
  ]

module _ (token_sha256 : ℕ → ℕ) (host : Host) (token : Option ℕ) (sid : ℕ) (role : Role)
    (w : AppState) (k : InStep w) where
  module _ (user : User)
      (known : extract_user token_sha256 token w.database ≡ ApiResult.granted user) where
    change_role-Changed :
        (s : Session) (uid : ℕ)
        → require_active_owned user sid w.database ≡ ok s
        → Changed token_sha256 token sid
            (some uid)
            role
            w
            (change_role host user sid role uid w).answer
            (change_role host user sid role uid w).state
    unfolding change_role
    change_role-Changed s uid mine = elim (Bool-cases (uid == user.id)) [
      | inl self ↦ rw self (refl, refl)
      | inr other ↦ rw other (elim (Bool-cases (role_eq role Role.owner)) [
        | inl top ↦ rw top (refl, refl)
        | inr below ↦ rw below (
            complete s uid mine other below _ _
              (replace_role-Replaced host user sid role w k uid _ refl))
      ])
    ]
      where
        complete :
            (s : Session) (uid : ℕ)
            → require_active_owned user sid w.database ≡ ok s
            → (uid == user.id) ≡ false
            → role_eq role Role.owner ≡ false
            → (answer : ApiResult (Unit {0})) (w' : AppState) → Replaced sid uid role w answer w'
            → Changed token_sha256 token sid (some uid) role w answer w'
        complete s uid mine other below (ApiResult.refused e) w' h = h
        complete s uid mine other below (ApiResult.granted u) w' h =
            let (found, owns, active) = owned user sid w.database s mine in
            (user, s, uid, known, found, owns, active, refl, other, below, h.0, h.1, h.2)

    update_role_as-Changed :
        (target : Option ℕ)
        → Changed token_sha256 token sid target role w
            (update_role_as host user sid role target w).answer
            (update_role_as host user sid role target w).state
    unfolding update_role_as
    update_role_as-Changed none =
        check-rule (Changed token_sha256 token sid none role w)
          (lift (require_active_owned user sid w.database)) w _ (λ e. (refl, refl))
          (λ s mine. (refl, refl))
    update_role_as-Changed (some uid) =
        elim (Result-cases (require_active_owned user sid w.database)) [
          | inl (e, refused) ↦ rw refused (refl, refl)
          | inr (s, mine) ↦ rw mine (change_role-Changed s uid mine)
        ]

  -- Where the hub shows everyone with the role of the store: a request for another role that is
  -- granted is by the owner of an active session, for another user than the owner and not for the
  -- role of an owner; afterwards the target has the role in the store and, if connected, in the hub,
  -- and the hub shows everyone with the role of the store again. A request that is refused leaves
  -- the database and the hub as they were.
  pub update_participant_role-Changed :
      (target : Option ℕ)
      → Changed token_sha256 token sid target role w
          (update_participant_role token_sha256 host token sid target role w).answer
          (update_participant_role token_sha256 host token sid target role w).state
  unfolding update_participant_role require_session_enabled audit_session_access_denied
  update_participant_role-Changed target =
      check-rule (Changed token_sha256 token sid target role w)
        (extract_user token_sha256 token w.database) w _ (λ e. (refl, refl))
        (λ user known. elim (Bool-cases (user.session_enabled || user.is_admin)) [
          | inl may ↦ rw may (update_role_as-Changed user known target)
          | inr may_not ↦ rw may_not (refl, refl)
        ])
