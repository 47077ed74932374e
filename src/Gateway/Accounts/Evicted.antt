-- ===== src/Gateway/Accounts/Evicted.antt =====
-- Once an account is disabled or its password changed through http.rs, nobody is connected as it.
use telepair.Base.{
  ℕ, ◌≡◌, refl, false, Option, none, some, arith, Option-cases, Bool-cases, inl, inr, is_some, ◌==◌,
}
use telepair.Base.Rows.{find, find-update_where}
use telepair.Base.Dict.{get, get-map_values, get-remove}
use telepair.Core.Failure.{Error, ok, err}
use telepair.Core.Protocol.{EvictReason, ParticipantInfo}
use telepair.Core.Records.{User}
use telepair.Storage.{Host, Database, user_id_is}
use telepair.Storage.Accounts.{find_user_by_id, set_session_enabled, with_enabled}
use telepair.Control.Passwords.{set_session_access}
use telepair.Hub.Live.{LiveSession, evict}
use telepair.Hub.Sound.{IsSound}
use telepair.Hub.Reachable.{Reach, Reach-IsSound}
use telepair.Hub.Sessions.{SessionEntry, Sessions, get_live, evict_user, evict_entry}
use telepair.Gateway.World.{
  AppState, ApiResult, extract_user, require_admin, check-rule, serve-rule,
}
use telepair.Gateway.Accounts.{set_user_enabled, set_access_as, access_error}

-- No live session has a connection of the user, or shows them as present.
abbrev pub Gone : ℕ → Sessions → Type 0
Gone uid m =
    (id : ℕ) (l : LiveSession)
    → get_live id m ≡ some l
    → (get uid l.connections ≡ none) × (get uid l.participants ≡ none)

evict-gone :
    (now uid : ℕ) (reason : EvictReason) (l : LiveSession)
    → IsSound l
    → (get uid (evict now uid reason l).1.connections ≡ none)
      × (get uid (evict now uid reason l).1.participants ≡ none)
unfolding evict
evict-gone now uid reason l s = elim (Option-cases (get uid l.connections)) [
  | inr (n, here) ↦
      ground (arith, here, get-remove uid uid l.connections, get-remove uid uid l.participants)
  | inl absent ↦ ground (arith, absent, s.tied uid, not_some (get uid l.participants))
]
  where
    not_some : (o : Option ParticipantInfo) → is_some o ≡ false → o ≡ none
    not_some none h = refl
    not_some (some p) h = cc

evict_user-Gone :
    (now uid : ℕ) (reason : EvictReason) (m : Sessions)
    → Reach m
    → Gone uid (evict_user now uid reason m).1
unfolding evict_user get_live
evict_user-Gone now uid reason m r id l h = elim (Option-cases (get id m)) [
  | inl absent ↦ ground (arith, absent, get-map_values (evict_entry now uid reason) id m)
  | inr (SessionEntry.pending name at, found) ↦
      ground (arith, found, get-map_values (evict_entry now uid reason) id m)
  | inr (SessionEntry.live before, found) ↦
      let evicted : (evict now uid reason before).1 ≡ l =
        ground (arith, found, get-map_values (evict_entry now uid reason) id m) in
      rw (← evicted) (evict-gone now uid reason before (Reach-IsSound m id before r found))
]

-- What a request to disable an account comes to, that began in `w`.
abbrev pub Disabled : ℕ → AppState → ApiResult User → AppState → Type 0
Disabled target w (ApiResult.granted u) w' =
    (find_user_by_id target w'.database ≡ some u) × (u.session_enabled ≡ false) × Gone target w'.hub
Disabled target w (ApiResult.refused e) w' = (w'.database ≡ w.database) × (w'.hub ≡ w.hub)

set_session_access_off :
    (host : Host) (actor id : ℕ) (u : User) (db : Database)
    → (set_session_access host actor id false db).answer ≡ ok u
    → (find_user_by_id id (set_session_access host actor id false db).database ≡ some u)
      × (u.session_enabled ≡ false)
unfolding set_session_access set_session_enabled find_user_by_id
set_session_access_off host actor id u db h =
    let changed =
      find-update_where (user_id_is id) (with_enabled false host.now) db.users (λ r t. t) in
    elim (Option-cases (find (user_id_is id) db.users)) [
      | inl absent ↦ ground (arith, absent, changed)
      | inr (row, found) ↦ ground (arith, found, changed)
    ]

set_session_access_failed :
    (host : Host) (actor id : ℕ) (e : Error) (db : Database)
    → (set_session_access host actor id false db).answer ≡ err e
    → (set_session_access host actor id false db).database ≡ db
unfolding set_session_access
set_session_access_failed host actor id e db h = ground arith

set_access_as-Disabled :
    (host : Host) (actor : User) (target : ℕ) (w : AppState)
    → Reach w.hub
    → Disabled target w
        (set_access_as host actor target false w).answer
        (set_access_as host actor target false w).state
unfolding set_access_as
set_access_as-Disabled host actor target w r = elim (Bool-cases (actor.id == target)) [
  | inl self ↦ rw self (refl, refl)
  | inr other ↦ rw other (
      serve-rule (Disabled target w) (set_session_access host actor.id target false w.database)
        access_error w _
        (λ e failed. (set_session_access_failed host actor.id target e w.database failed, refl))
        (λ u done.
          let (found, off) = set_session_access_off host actor.id target u w.database done in
          (found, off, evict_user-Gone host.now target EvictReason.account_disabled w.hub r)))
]

-- In a hub that the tasks of the gateway can reach: if a request to disable an account is granted,
-- the account is stored with sessions disabled afterwards, and no live session has a connection of
-- it or shows it as present. If it is refused, the database and the hub are as they were.
pub disable-evicts :
    (token_sha256 : ℕ → ℕ) (host : Host) (token : Option ℕ) (target : ℕ) (w : AppState)
    → Reach w.hub
    → Disabled target w
        (set_user_enabled token_sha256 host token target false w).answer
        (set_user_enabled token_sha256 host token target false w).state
unfolding set_user_enabled
disable-evicts token_sha256 host token target w r =
    check-rule (Disabled target w) (extract_user token_sha256 token w.database) w _
      (λ e. (refl, refl))
      (λ actor known.
        check-rule (Disabled target w) (require_admin actor) w _ (λ e. (refl, refl))
          (λ admin right. set_access_as-Disabled host actor target w r))
