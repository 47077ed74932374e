-- ===== src/Gateway/Recordings/Begun.antt =====
-- What a request to start a recording through http.rs leaves behind.
use telepair.Base.{
  ℕ, ◌≡◌, refl, Bool, true, false, ◌==◌, Option, none, some, String, Bool-cases, inl, inr, ◌⊎◌,
}
use telepair.Base.Dict.{get}
use telepair.Core.Failure.{Result, ok, err, Result-cases}
use telepair.Core.Status.{is_active}
use telepair.Core.Records.{User, Session, RecordingRow}
use telepair.Storage.{Database, Host}
use telepair.Storage.Sessions.{get_session}
use telepair.Storage.Recordings.{find_active_recording}
use telepair.Hub.Sessions.{Sessions, has_recording}
use telepair.Control.Recordings
use telepair.Core.Protocol.{ServerMessage}
use telepair.Control.Recordings.{RecordingConfig, should_record}
use telepair.Control.Sessions.{require_active_owned}
use telepair.Control.Sessions.Owned.{owned}
use telepair.Gateway.World.{AppState, ApiResult, extract_user, check-rule}
use telepair.Gateway.Recordings.{
  start_recording, start_as, begin, announce, install_slot, fresh_slot,
}
use telepair.Gateway.Recordings.Made.{row_made, undone, hub_of, taken}

-- What a request to start a recording comes to, that began in `w`.
abbrev pub Begun :
    (ℕ → ℕ)
    → RecordingConfig
    → (token : Option ℕ) (sid : ℕ) → AppState
    → ApiResult RecordingRow
    → AppState
    → Type 0
Begun token_sha256 config token sid w (ApiResult.refused e) w' =
    ((other : ℕ) → find_active_recording other w'.database ≡ find_active_recording other w.database)
    × ((other : ℕ) → get other w'.hub ≡ get other w.hub)
    × (w'.audit ≡ w.audit)
Begun token_sha256 config token sid w (ApiResult.granted r) w' =
    (user : User) × (s : Session) × (extract_user token_sha256 token w.database
      ≡ ApiResult.granted user)
    × (get_session sid w.database ≡ some s)
    × (s.owner_id == user.id ≡ true)
    × (is_active s.status ≡ true)
    × (config.enabled ≡ true)
    × (r.created_by ≡ user.id)
    × (find_active_recording sid w.database ≡ none)
    × (find_active_recording sid w'.database ≡ some r)
    × (has_recording sid w.hub ≡ false)
    × (has_recording sid w'.hub ≡ true)

module _ (file_name : ℕ → String) (config : RecordingConfig) (dir_made : Bool) (host : Host)
    (token_sha256 : ℕ → ℕ) (token : Option ℕ) (sid : ℕ) (w : AppState) where
  module _ (user : User) (s : Session)
      (known : extract_user token_sha256 token w.database ≡ ApiResult.granted user)
      (mine : require_active_owned user sid w.database ≡ ok s) (on : config.enabled ≡ true)
      (width height : ℕ) where
    announce-Begun :
        (r : RecordingRow) (db' : Database)
        → Recordings.create_recording file_name config dir_made host sid user.id width height
            w.database
          ≡ ok (r, db')
        → (answer : (String ⊎ Unit {0}) × Sessions) → install_slot fresh_slot sid w.hub ≡ answer
        → Begun token_sha256 config token sid w
            (announce host user sid r db' answer w).answer
            (announce host user sid r db' answer w).state
    announce-Begun r db' made (inl reason, m) tried = (
      undone file_name config dir_made host sid user.id width height w.database made,
      λ other. hub_of sid other fresh_slot w.hub tried,
      refl,
    )
    announce-Begun r db' made (inr u, m) tried =
        let (found, owns, active) = owned user sid w.database s mine in
        let (free, now, by, fresh, grown) =
          row_made file_name config dir_made host sid user.id width height w.database made in
        let (idle, busy) =
          taken sid fresh_slot (ServerMessage.recording_started r.id) w.hub tried in
        (user, s, known, found, owns, active, on, by, free, now, idle, busy)

    begin-Begun :
        (made : Result (RecordingRow × Database))
        → Recordings.create_recording file_name config dir_made host sid user.id width height
            w.database
          ≡ made
        → Begun token_sha256 config token sid w
            (begin file_name config dir_made host user sid made w).answer
            (begin file_name config dir_made host user sid made w).state
    begin-Begun (err e) h = (λ other. refl, λ other. refl, refl)
    begin-Begun (ok (r, db')) h = announce-Begun r db' h _ refl

  start_as-Begun :
      (user : User) (s : Session)
      → extract_user token_sha256 token w.database ≡ ApiResult.granted user
      → require_active_owned user sid w.database ≡ ok s
      → Begun token_sha256 config token sid w
          (start_as file_name config dir_made host user sid w).answer
          (start_as file_name config dir_made host user sid w).state
  unfolding start_as should_record
  start_as-Begun user s known mine = elim (Bool-cases config.enabled) [
    | inl on ↦ simp (on) (begin-Begun user s known mine on _ _ _ refl)
    | inr off ↦ rw off (λ other. refl, λ other. refl, refl)
  ]

  -- A recording that is started is of an active session, by its owner, on a server that records;
  -- neither the store nor the hub had one of the session in progress, and afterwards the store has
  -- the one that is answered and the hub feeds one. A request that is refused leaves the hub and the
  -- audit log as they were, and no session has another recording in progress than before.
  pub start_recording-Begun :
      Begun token_sha256 config token sid w
        (start_recording file_name config dir_made host token_sha256 token sid w).answer
        (start_recording file_name config dir_made host token_sha256 token sid w).state
  unfolding start_recording
  start_recording-Begun =
      check-rule (Begun token_sha256 config token sid w)
        (extract_user token_sha256 token w.database) w _ (λ e. (λ other. refl, λ other. refl, refl))
        (λ user known. elim (Result-cases (require_active_owned user sid w.database)) [
          | inl (e, refused) ↦ rw refused (λ other. refl, λ other. refl, refl)
          | inr (s, mine) ↦ rw mine (start_as-Begun user s known mine)
        ])
