-- ===== src/Hub/Sessions.antt =====
-- crates/telepair-gateway/src/session_hub.rs: the map of sessions behind the hub's lock. Each
-- function is one critical section; what other tasks do between two of them is an argument.
use telepair.Base.{
  ℕ, ◌+◌, ◌-◌, Bool, true, false, not, Option, none, some, List, [], ◌∷◌, String, if◌then◌else◌,
  ltb, leb, str_eq, length, is_some, map_option, ◌⊎◌, inl, inr,
}
use telepair.Base.Dict.{Dict, get, insert, remove, retain, values, map_values}
use telepair.Core.Role.{Role}
use telepair.Core.Protocol.{EvictReason, ParticipantInfo, ServerMessage}
use telepair.Hub.Recorder.{RecordingSlot}
use telepair.Hub.Live.{
  LiveSession, SessionAttachment, new_live, attach_to, broadcast, evict, take_recording,
  add_participant,
}

pub data SessionEntry : Type 0 where
  live : LiveSession → SessionEntry
  pending : (target_name : String) (reserved_at : ℕ) → SessionEntry

abbrev pub target_of : SessionEntry → String
target_of (live l) = l.target_name
target_of (pending name at) = name

abbrev pub Sessions : Type 0
Sessions = Dict SessionEntry

abbrev pub as_live : SessionEntry → Option LiveSession
as_live (live l) = some l
as_live (pending name at) = none

-- `let Some(SessionEntry::Live(live)) = sessions.get(id)`
unfoldable pub get_live : ℕ → Sessions → Option LiveSession
get_live id m = elim (get id m) [ none ↦ none | some e ↦ as_live e ]

unfoldable pub change_live : (LiveSession → LiveSession) → ℕ → Sessions → Sessions
change_live f id m = elim (get_live id m) [ none ↦ m | some l ↦ insert id (live (f l)) m ]

-- A method that changes one live session and answers `absent` if there is none.
unfoldable pub with_live {ℓ} :
    {A : Type ℓ} → A → (LiveSession → A × LiveSession) → ℕ → Sessions → A × Sessions
with_live absent f id m = elim (get_live id m) [
  | none ↦ (absent, m)
  | some l ↦ let (answer, l') = f l in (answer, insert id (live l') m)
]

-- The fast path reads `m`; `m'` is the map later, when the shell was spawned, which may fail, and
-- the write lock is held.
unfoldable pub start_or_join :
    (now id : ℕ) (target_name : String) (cols rows : ℕ) (spawned : Bool)
    → Sessions
    → Sessions
    → Option SessionAttachment × Sessions
start_or_join now id target_name cols rows spawned m m' = elim (get_live id m) [
  | some l ↦ (some (attach_to l), m')
  | none ↦ if not spawned then (none, m') else (elim (get_live id m') [
    | some l ↦ (some (attach_to l), m')
    | none ↦
        let l = new_live now target_name cols rows in (some (attach_to l), insert id (live l) m')
  ])
]

abbrev pub evict_entry : ℕ → ℕ → EvictReason → SessionEntry → SessionEntry
evict_entry now uid reason (live l) = live (evict now uid reason l).1
evict_entry now uid reason (pending name at) = pending name at

abbrev pub evicted_from : ℕ → ℕ → EvictReason → List SessionEntry → ℕ
evicted_from now uid reason [] = 0
evicted_from now uid reason (live l ∷ es) =
    (if (evict now uid reason l).0 then 1 else 0) + evicted_from now uid reason es
evicted_from now uid reason (pending name at ∷ es) = evicted_from now uid reason es

unfoldable pub evict_user : ℕ → ℕ → EvictReason → Sessions → ℕ × Sessions
evict_user now uid reason m =
    (evicted_from now uid reason (values m), map_values (evict_entry now uid reason) m)

abbrev pub shut_down_session : LiveSession → LiveSession
shut_down_session l = record l { shut_down = true }

-- The handlers that hold the session are told to shut down, and it leaves the map.
unfoldable pub stop_session : ℕ → Sessions → Option LiveSession × Sessions
stop_session id m = (map_option shut_down_session (get_live id m), remove id m)

abbrev pub unexpired_entry : ℕ → ℕ → SessionEntry → Bool
unexpired_entry now ttl (live l) = true
unexpired_entry now ttl (pending name at) = ltb (now - at) ttl

unfoldable pub gc_expired_pending : ℕ → ℕ → Sessions → Sessions
gc_expired_pending now ttl m = retain (unexpired_entry now ttl) m

-- The count that `count_live_sessions_per_target` gives for one target.
abbrev pub count_target : String → List SessionEntry → ℕ
count_target name [] = 0
count_target name (e ∷ es) = (if str_eq (target_of e) name then 1 else 0) + count_target name es

unfoldable pub count_live_sessions_per_target : ℕ → ℕ → Sessions → (String → ℕ) × Sessions
count_live_sessions_per_target now ttl m =
    let kept = gc_expired_pending now ttl m in ((λ name. count_target name (values kept)), kept)

unfoldable pub active_count : ℕ → ℕ → Sessions → ℕ × Sessions
active_count now ttl m = let kept = gc_expired_pending now ttl m in (length kept, kept)

unfoldable pub reserve_target : ℕ → ℕ → String → Sessions → Sessions
reserve_target now id target_name m =
    if is_some (get id m) then m else insert id (pending target_name now) m

abbrev pub is_pending : SessionEntry → Bool
is_pending (live l) = false
is_pending (pending name at) = true

unfoldable pub release_reservation : ℕ → Sessions → Sessions
release_reservation id m = elim (get id m) [
  | none ↦ m
  | some e ↦ if is_pending e then remove id m else m
]

unfoldable pub broadcast_collab : ServerMessage → ℕ → Sessions → Sessions
broadcast_collab msg = change_live (broadcast msg)

unfoldable pub get_participant_role : ℕ → ℕ → Sessions → Option Role
get_participant_role id uid m = elim (get_live id m) [
  | none ↦ none
  | some l ↦ map_option (λ p. p.role) (get uid l.participants)
]

unfoldable pub pty_size : ℕ → Sessions → Option (ℕ × ℕ)
pty_size id m = map_option (λ l. l.pty_size) (get_live id m)

unfoldable pub has_recording : ℕ → Sessions → Bool
has_recording id m = elim (get_live id m) [ none ↦ false | some l ↦ is_some l.recording ]

-- `stop_recording` takes the slot, whose writer is sent `Stop` once the lock is released.
abbrev pub stop_answer : Option RecordingSlot → String ⊎ RecordingSlot
stop_answer none = inl "no recording active"
stop_answer (some slot) = inr slot

unfoldable pub stop_recording : ℕ → Sessions → (String ⊎ RecordingSlot) × Sessions
stop_recording =
    with_live (inl "session not found or not live")
      (λ l. let (slot, l') = take_recording l in (stop_answer slot, l'))

unfoldable pub clear_recording_slot : ℕ → Sessions → Sessions
clear_recording_slot = change_live (λ l. (take_recording l).1)

-- The snapshot holds the participants after the join.
unfoldable pub add_participant_and_snapshot :
    (uid : ℕ) (name : String) (role : Role)
    → ℕ
    → Sessions
    → Option (List ParticipantInfo) × Sessions
add_participant_and_snapshot uid name role =
    with_live none
      (λ l. let l' = add_participant uid name role l in (some (values l'.participants), l'))

-- `idle_since.elapsed() >= idle_timeout`
abbrev pub overdue : ℕ → ℕ → SessionEntry → Bool
overdue now timeout (live l) = elim l.idle_since [
  | none ↦ false
  | some since ↦ leb timeout (now - since)
]
overdue now timeout (pending name at) = false

-- The reaper's scan under the read lock.
unfoldable pub to_reap : ℕ → ℕ → Sessions → List ℕ
to_reap now timeout [] = []
to_reap now timeout ((id, e) ∷ m) =
    let rest = to_reap now timeout m in if overdue now timeout e then id ∷ rest else rest

unfoldable pub overdue_at : ℕ → ℕ → ℕ → Sessions → Bool
overdue_at now timeout id m = elim (get id m) [ none ↦ false | some e ↦ overdue now timeout e ]

-- The candidates again, under the write lock.
unfoldable pub reap : ℕ → ℕ → List ℕ → Sessions → List ℕ × Sessions
reap now timeout [] m = ([], m)
reap now timeout (id ∷ ids) m =
    let kill = reap now timeout ids (remove id m) in
    let spare = reap now timeout ids m in
    if overdue_at now timeout id m then (id ∷ kill.0, kill.1) else spare

-- One tick of the reaper: it scanned `m` at `scanned`, and has the write lock on `m'` at `now`.
unfoldable pub sweep : (scanned now timeout ttl : ℕ) → Sessions → Sessions → List ℕ × Sessions
sweep scanned now timeout ttl m m' =
    reap now timeout (to_reap scanned timeout m) (gc_expired_pending now ttl m')
