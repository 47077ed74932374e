-- ===== src/Gateway/Targets/Keeps.antt =====
-- What a reload in http.rs may do to the sessions that run.
use telepair.Base.{
  ℕ, ◌-◌, ◌<◌, ◌≡◌, refl, true, Option, none, some, List, [], ◌∷◌, String, arith, is_some, inl, inr,
  Bool-cases,
}
use telepair.Base.Dict.{get, values, get-retain}
use telepair.Core.Failure.{Result, ok, err}
use telepair.Core.Records.{User}
use telepair.Hub.Sessions.{
  SessionEntry, Sessions, target_of, unexpired_entry, gc_expired_pending,
  count_live_sessions_per_target,
}
use telepair.Targets.{TargetEngine, find_target, from_config}
use telepair.Gateway.World.{AppState, ApiResult, check-rule, extract_user, require_admin}
use telepair.Gateway.Targets.{
  TargetFile, Reload, missing, store_unless, swap_engine, parsed, reload_file, reload_path,
  reload_targets, kept_sessions, differs,
}

missing-find_target :
    (engine : TargetEngine) (m : Sessions) (id : ℕ) (e : SessionEntry)
    → missing engine (values m) ≡ []
    → get id m ≡ some e
    → is_some (find_target (target_of e) engine) ≡ true
unfolding missing get
missing-find_target engine [] id e none_missing h = cc
missing-find_target engine ((j, f) ∷ m) id e none_missing h =
    ground (arith, missing-find_target engine m id e)

-- A session that is attached, or a reservation that has not run out.
abbrev pub Counts : (now ttl : ℕ) → SessionEntry → Type 0
Counts now ttl (SessionEntry.live l) = Unit
Counts now ttl (SessionEntry.pending name at) = now - at < ttl

-- Every session that counts in one hub is in the other.
abbrev pub Kept : (now ttl : ℕ) → Sessions → Sessions → Type 0
Kept now ttl m m' =
    (id : ℕ) (e : SessionEntry) → get id m ≡ some e → Counts now ttl e → get id m' ≡ some e

abbrev pub Settled : (now ttl : ℕ) → AppState → ApiResult Reload → AppState → Type 0
Settled now ttl w (ApiResult.granted (Reload.reloaded n)) w' =
    (id : ℕ) (e : SessionEntry)
    → get id w.hub ≡ some e
    → Counts now ttl e
    → is_some (find_target (target_of e) w'.targets) ≡ true
Settled now ttl w answer w' = w'.targets ≡ w.targets

-- What a reload that began in `w` comes to.
abbrev pub Safe : (now ttl : ℕ) → AppState → ApiResult Reload → AppState → Type 0
Safe now ttl w answer w' = Kept now ttl w.hub w'.hub × Settled now ttl w answer w'

kept_sessions-Kept : (now ttl : ℕ) (m : Sessions) → Kept now ttl m (kept_sessions now ttl m)
unfolding count_live_sessions_per_target gc_expired_pending
kept_sessions-Kept now ttl m id (SessionEntry.live l) here counts =
    get-retain (unexpired_entry now ttl) id (SessionEntry.live l) m here refl
kept_sessions-Kept now ttl m id (SessionEntry.pending name at) here counts =
    get-retain (unexpired_entry now ttl) id (SessionEntry.pending name at) m here (ground arith)

module _ (now ttl : ℕ) (user : User) (w : AppState) where
  store_unless-Safe :
      (engine : TargetEngine) (w' : AppState) (names : List String)
      → missing engine (values w'.hub) ≡ names
      → Kept now ttl w.hub w'.hub
      → w'.targets ≡ w.targets
      → Safe now ttl w
          (store_unless user engine names w').answer
          (store_unless user engine names w').state
  store_unless-Safe engine w' [] e kept same = (
    kept,
    λ id entry here counts.
        missing-find_target engine w'.hub id entry e (kept id entry here counts),
  )
  store_unless-Safe engine w' (name ∷ names) e kept same = (kept, same)

  parsed-Safe :
      (expected : Option ℕ) (sha : ℕ) (r : Result TargetEngine)
      → Safe now ttl w
          (parsed now ttl user expected sha r w).answer
          (parsed now ttl user expected sha r w).state
  unfolding swap_engine
  parsed-Safe expected sha (err e) = (λ id e h c. h, refl)
  parsed-Safe expected sha (ok engine) = elim (Bool-cases (differs expected sha)) [
    | inl changed ↦ rw changed (λ id e h c. h, refl)
    | inr same ↦ rw same (
        store_unless-Safe engine (record w { hub = kept_sessions now ttl w.hub }) _ refl
          (kept_sessions-Kept now ttl w.hub) refl)
  ]

  reload_path-Safe :
      (expected : Option ℕ) (file : Option TargetFile)
      → Safe now ttl w
          (reload_path now ttl user expected file w).answer
          (reload_path now ttl user expected file w).state
  unfolding reload_file
  reload_path-Safe expected none = (λ id e h c. h, refl)
  reload_path-Safe expected (some TargetFile.absent) = (λ id e h c. h, refl)
  reload_path-Safe expected (some TargetFile.unreadable) = (λ id e h c. h, refl)
  reload_path-Safe expected (some (TargetFile.listed targets sha)) =
      parsed-Safe expected sha (from_config targets)

-- A reload drops no session that is attached and no reservation that has not run out. If it stores
-- new targets, they have one by the name of the target of each of these, whether that target was in
-- the file or belongs to a user. Any other answer leaves the targets as they were.
pub reload_targets-Safe :
    (token_sha256 : ℕ → ℕ) (now ttl : ℕ) (token expected : Option ℕ) (file : Option TargetFile)
    (w : AppState)
    → Safe now ttl w
        (reload_targets token_sha256 now ttl token expected file w).answer
        (reload_targets token_sha256 now ttl token expected file w).state
unfolding reload_targets
reload_targets-Safe token_sha256 now ttl token expected file w =
    check-rule (Safe now ttl w) (extract_user token_sha256 token w.database) w _
      (λ e. (λ id e h c. h, refl))
      (λ user known.
        check-rule (Safe now ttl w) (require_admin user) w _ (λ e. (λ id e h c. h, refl))
          (λ admin right. reload_path-Safe now ttl user w expected file))
