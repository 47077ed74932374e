-- ===== src/Gateway/Sessions/Created.antt =====
-- What a request for a new session through http.rs comes to.
use telepair.Base.{
  ℕ, ◌≡◌, refl, true, false, not, ◌&&◌, ◌||◌, Option, none, some, String, arith, is_some, unwrap_or,
  Option-cases, Bool-cases, inl, inr, ◌⊎◌,
}
use telepair.Base.Rows.{find}
use telepair.Base.Dict.{get, get-insert}
use telepair.Core.Failure.{Error, ok, err, Result-cases}
use telepair.Core.Status.{InputMode}
use telepair.Core.Records.{User, Session, UserTarget, is_guest}
use telepair.Storage.{Database, Host}
use telepair.Storage.UserTargets.{find_user_target_by_id}
use telepair.Storage.Sessions.{create_session_with_owner, get_session}
use telepair.Hub.Sessions.{Sessions, SessionEntry, reserve_target}
use telepair.Targets.{Target, find_target}
use telepair.Control.Sessions.{create_session_with_user_target}
use telepair.Control.UserTargets
use telepair.Gateway.World.{
  AppState, ApiError, ApiResult, extract_user, require_unscoped, require_session_enabled,
  audit_session_access_denied, check-rule, serve-rule,
}
use telepair.Gateway.Sessions.{
  CreateSessionRequest, TargetSelector, Picked, pick_target_selector, pick_target, launch,
  create_as, create_session,
}

module _ (host : Host) (owner : User) (name : String) (mode : InputMode) (target : Option ℕ)
    (db : Database) where
  row_made :
      (s : Session) (db' : Database)
      → create_session_with_owner host owner.id name mode target db ≡ ok (s, db')
      → (get_session s.id db' ≡ some s)
        × (s.owner_id ≡ owner.id)
        × (s.target_name ≡ name)
        × (s.user_target_id ≡ target)
  unfolding create_session_with_owner get_session find
  row_made s db' h = ground (arith, h)

  session_made :
      (s : Session)
      → (create_session_with_user_target host owner name mode target db).answer ≡ ok s
      → (get_session s.id (create_session_with_user_target host owner name mode target db).database
          ≡ some s)
        × (s.owner_id ≡ owner.id)
        × (s.target_name ≡ name)
        × (s.user_target_id ≡ target)
  unfolding create_session_with_user_target
  session_made s h =
      elim (Result-cases (create_session_with_owner host owner.id name mode target db)) [
        | inl (e, refused) ↦ ground (arith, h, refused)
        | inr ((s', db'), made) ↦ ground (arith, h, made, row_made s' db' made)
      ]

  session_refused :
      (e : Error)
      → (create_session_with_user_target host owner name mode target db).answer ≡ err e
      → (create_session_with_user_target host owner name mode target db).database ≡ db
  unfolding create_session_with_user_target
  session_refused e h = ground arith

reserved :
    (now id : ℕ) (name : String) (m : Sessions)
    → is_some (get id (reserve_target now id name m)) ≡ true
unfolding reserve_target
reserved now id name m = ground (arith, get-insert id id (SessionEntry.pending name now) m)

owned_by_caller :
    (id uid : ℕ) (db : Database) (t : UserTarget)
    → UserTargets.get id uid db ≡ some t
    → t.user_id ≡ uid
unfolding UserTargets.get
owned_by_caller id uid db t h = elim (Option-cases (find_user_target_by_id id db)) [
  | inl absent ↦ ground (arith, absent)
  | inr (r, found) ↦ ground (arith, found)
]

-- A target that the caller may launch, as the row of the session names it.
abbrev pub Launchable : User → AppState → Session → Type 0
Launchable user w s =
    ((t : Target) × (find_target s.target_name w.targets ≡ some t)
      × (t.admin_only && not user.is_admin ≡ false)
      × (s.user_target_id ≡ none))
    ⊎ ((t : UserTarget) × (id : ℕ) × (UserTargets.get id user.id w.database ≡ some t)
        × (t.user_id ≡ user.id)
        × (s.user_target_id ≡ some t.id)
        × (s.target_name ≡ t.name))

-- What a request for a new session comes to, that began in `w`.
abbrev pub Created : (ℕ → ℕ) → (token : Option ℕ) → AppState → ApiResult Session → AppState → Type 0
Created token_sha256 token w (ApiResult.refused e) w' =
    (w'.database ≡ w.database) × (w'.hub ≡ w.hub)
Created token_sha256 token w (ApiResult.granted s) w' =
    (user : User) × (extract_user token_sha256 token w.database ≡ ApiResult.granted user)
    × (is_guest user ≡ false)
    × (user.session_enabled || user.is_admin ≡ true)
    × Launchable user w s
    × (s.owner_id ≡ user.id)
    × (get_session s.id w'.database ≡ some s)
    × (is_some (get s.id w'.hub) ≡ true)

-- What the look-up of the target found, for whatever session has it.
abbrev Found : User → AppState → Picked → Type 0
Found user w p =
    (s : Session)
    → s.target_name ≡ p.target_name
    → s.user_target_id ≡ p.user_target_id
    → (p.admin_only && not user.is_admin ≡ false)
    → Launchable user w s

pick_target-Found :
    (user : User) (w : AppState) (selector : TargetSelector) (p : Picked)
    → pick_target user selector w ≡ ApiResult.granted p
    → Found user w p
unfolding pick_target
pick_target-Found user w (TargetSelector.global name) p h s named aimed open_to =
    elim (Option-cases (find_target name w.targets)) [
      | inl absent ↦ ground (arith, h, absent)
      | inr (t, found) ↦
          let same : s.target_name ≡ name = ground (arith, h, found, named) in
          inl (t, rw same found, ground (arith, h, found, open_to), ground (arith, h, found, aimed))
    ]
pick_target-Found user w (TargetSelector.user id) p h s named aimed open_to =
    elim (Option-cases (UserTargets.get id user.id w.database)) [
      | inl absent ↦ ground (arith, h, absent)
      | inr (t, found) ↦ inr (
        t,
        id,
        found,
        owned_by_caller id user.id w.database t found,
        ground (arith, h, found),
        ground (arith, h, found),
      )
    ]

module _ (token_sha256 : ℕ → ℕ) (host : Host) (token : Option ℕ) (w : AppState) where
  module _ (user : User)
      (known : extract_user token_sha256 token w.database ≡ ApiResult.granted user)
      (unscoped : is_guest user ≡ false) (may : user.session_enabled || user.is_admin ≡ true) where
    launch-Created :
        (mode : Option InputMode) (p : Picked)
        → Found user w p
        → Created token_sha256 token w
            (launch host user mode p w).answer
            (launch host user mode p w).state
    unfolding launch
    launch-Created mode p found = elim (Bool-cases (p.admin_only && not user.is_admin)) [
      | inl closed ↦ rw closed (refl, refl)
      | inr open_to ↦ rw open_to (
          serve-rule (Created token_sha256 token w)
            (create_session_with_user_target host user p.target_name
              (unwrap_or mode InputMode.multiplexed) p.user_target_id w.database)
            ApiError.from w _ (λ e h. (session_refused host user _ _ _ w.database e h, refl))
            (λ s h.
              let (there, mine, named, aimed) = session_made host user _ _ _ w.database s h in
              (
                user,
                known,
                unscoped,
                may,
                found s named aimed open_to,
                mine,
                there,
                reserved host.now s.id p.target_name w.hub,
              )))
    ]

    create_as-Created :
        (body : CreateSessionRequest)
        → Created token_sha256 token w
            (create_as host user body w).answer
            (create_as host user body w).state
    unfolding create_as
    create_as-Created body =
        check-rule (Created token_sha256 token w) (pick_target_selector body) w _
          (λ e. (refl, refl))
          (λ selector chosen.
            check-rule (Created token_sha256 token w) (pick_target user selector w) w _
              (λ e. (refl, refl))
              (λ p h. launch-Created body.input_mode p (pick_target-Found user w selector p h)))

  -- A session that is created belongs to the caller, who is no guest and may use sessions or is an
  -- administrator; its target is one of the target file, which an administrator alone may use if
  -- it says so, or one that the caller owns; the session is in the store, and the hub has an entry
  -- for it. A request that is refused leaves the database and the hub as they were.
  pub create_session-Created :
      (body : CreateSessionRequest)
      → Created token_sha256 token w
          (create_session token_sha256 host token body w).answer
          (create_session token_sha256 host token body w).state
  unfolding create_session require_unscoped require_session_enabled audit_session_access_denied
  create_session-Created body =
      check-rule (Created token_sha256 token w) (extract_user token_sha256 token w.database) w _
        (λ e. (refl, refl))
        (λ user known. elim (Bool-cases (is_guest user)) [
          | inl guest ↦ rw guest (refl, refl)
          | inr unscoped ↦ rw unscoped (elim (Bool-cases (user.session_enabled || user.is_admin)) [
            | inl may ↦ rw may (create_as-Created user known unscoped may body)
            | inr may_not ↦ rw may_not (refl, refl)
          ])
        ])
