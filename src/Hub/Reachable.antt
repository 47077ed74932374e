-- ===== src/Hub/Reachable.antt =====
-- The hub of session_hub.rs as a step relation: what the tasks do to the map, one critical section
-- after the other, in any order.
use telepair.Base.{ℕ, ◌≡◌, Bool, Option, none, some, List, [], ◌∷◌, ◌++◌, String, arith, inr}
use telepair.Base.Dict.{
  get, insert, remove, AllValues, AllValues-get, AllValues-insert, AllValues-remove,
  AllValues-retain, AllValues-map_values,
}
use telepair.Core.Role.{Role}
use telepair.Core.Protocol.{EvictReason, ChatEntry, ServerMessage}
use telepair.Hub.Scrollback.{Bytes, Small}
use telepair.Hub.Recorder.{RecordingSlot}
use telepair.Hub.Live.{
  LiveSession, new_live, broadcast, emit_output, apply_resize, add_participant, remove_participant,
  record_chat, start_recording, take_recording, update_participant_role,
}
use telepair.Hub.Sound
use telepair.Hub.Sound.{IsSound}
use telepair.Hub.Sessions.{
  evict_entry, SessionEntry, Sessions, start_or_join, stop_session, evict_user, gc_expired_pending,
  reserve_target, release_reservation, reap,
}

-- What one task does to one live session.
pub data LiveStep (l : LiveSession) : LiveSession → Type 0 where
  output : (bytes : Bytes) → Small bytes → LiveStep l (emit_output bytes l)
  resize : (cols rows : ℕ) → LiveStep l (apply_resize cols rows l)
  join : (uid : ℕ) (name : String) (role : Role) → LiveStep l (add_participant uid name role l)
  part : (now uid : ℕ) → LiveStep l (remove_participant now uid l).1
  chat : (entry : ChatEntry) → LiveStep l (record_chat entry l)
  record_on :
      (l' : LiveSession) (slot : RecordingSlot) → start_recording slot l ≡ inr l' → LiveStep l l'
  record_off : LiveStep l (take_recording l).1
  role : (uid : ℕ) (new_role : Role) → LiveStep l (update_participant_role uid new_role l).1
  say : (m : ServerMessage) → LiveStep l (broadcast m l)

pub data Step (m : Sessions) : Sessions → Type 0 where
  on_live :
      (id : ℕ) (l l' : LiveSession)
      → get id m ≡ some (SessionEntry.live l)
      → LiveStep l l'
      → Step m (insert id (SessionEntry.live l') m)
  start :
      (before : Sessions) (now id : ℕ) (target : String) (cols rows : ℕ) (spawned : Bool)
      → Step m (start_or_join now id target cols rows spawned before m).1
  stop : (id : ℕ) → Step m (stop_session id m).1
  pty_exit : (id : ℕ) → Step m (remove id m)
  evict : (now uid : ℕ) (reason : EvictReason) → Step m (evict_user now uid reason m).1
  gc : (now ttl : ℕ) → Step m (gc_expired_pending now ttl m)
  reserve : (now id : ℕ) (target : String) → Step m (reserve_target now id target m)
  release : (id : ℕ) → Step m (release_reservation id m)
  reaped : (now timeout : ℕ) (ids : List ℕ) → Step m (reap now timeout ids m).1

pub data Reach : Sessions → Type 0 where
  empty : Reach []
  next : {m m' : Sessions} → Reach m → Step m m' → Reach m'

abbrev pub EntrySound : SessionEntry → Type 0
EntrySound (SessionEntry.live l) = IsSound l
EntrySound (SessionEntry.pending name at) = Unit

-- Broadcasts, the size and the recording tap do not matter.
retold :
    (l : LiveSession) (collab : List ServerMessage) (size : ℕ × ℕ) (tap : Option RecordingSlot)
    → IsSound l
    → IsSound (record l { collab = collab; pty_size = size; recording = tap })
retold l collab size tap s = record {
  tied = s.tied;
  counted = s.counted;
  idle = s.idle;
  chat = s.chat;
  buffer = s.buffer;
  replay = s.replay;
}

record_on-IsSound :
    (l l' : LiveSession) (slot : RecordingSlot)
    → start_recording slot l ≡ inr l'
    → IsSound l
    → IsSound l'
unfolding start_recording
record_on-IsSound l l' slot e s = ground (arith, e, retold l l.collab l.pty_size (some slot) s)

LiveStep-IsSound : {l l' : LiveSession} → LiveStep l l' → IsSound l → IsSound l'
unfolding apply_resize take_recording
LiveStep-IsSound {l} (output bytes small) s = Sound.emit_output-IsSound l s bytes small
LiveStep-IsSound {l} (resize cols rows) s = retold l l.collab (cols, rows) _ s
LiveStep-IsSound {l} (join uid name r) s = Sound.add_participant-IsSound l s uid name r
LiveStep-IsSound {l} (part now uid) s = Sound.remove_participant-IsSound l s now uid
LiveStep-IsSound {l} (chat entry) s = Sound.record_chat-IsSound l s entry
LiveStep-IsSound {l} (record_on l' slot e) s = record_on-IsSound l l' slot e s
LiveStep-IsSound {l} record_off s = retold l l.collab l.pty_size none s
LiveStep-IsSound {l} (role uid r) s = Sound.update_participant_role-IsSound l s uid r
LiveStep-IsSound {l} (say m) s = retold l (l.collab ++ m ∷ []) l.pty_size l.recording s

abbrev AllSound : Sessions → Type 0
AllSound = AllValues EntrySound

reap-AllSound :
    (now timeout : ℕ) (ids : List ℕ) (m : Sessions)
    → AllSound m
    → AllSound (reap now timeout ids m).1
unfolding reap
reap-AllSound now timeout [] m a = a
reap-AllSound now timeout (id ∷ ids) m a = ground (
  arith,
  reap-AllSound now timeout ids m a,
  reap-AllSound now timeout ids (remove id m) (AllValues-remove EntrySound id m a),
)

start-AllSound :
    (before m : Sessions) (now id : ℕ) (target : String) (cols rows : ℕ) (spawned : Bool)
    → AllSound m
    → AllSound (start_or_join now id target cols rows spawned before m).1
unfolding start_or_join
start-AllSound before m now id target cols rows spawned a = ground (
  arith,
  a,
  AllValues-insert EntrySound id (SessionEntry.live (new_live now target cols rows)) m
      (Sound.new_live-IsSound now target cols rows) a,
)

evicted_entry :
    (now uid : ℕ) (reason : EvictReason) (e : SessionEntry)
    → EntrySound e
    → EntrySound (evict_entry now uid reason e)
evicted_entry now uid reason (SessionEntry.live l) s = Sound.evict-IsSound l s now uid reason
evicted_entry now uid reason (SessionEntry.pending name at) s = s

Step-AllSound : {m m' : Sessions} → Step m m' → AllSound m → AllSound m'
unfolding stop_session evict_user gc_expired_pending reserve_target release_reservation
Step-AllSound {m} (on_live id l l' here step) a =
    AllValues-insert EntrySound id (SessionEntry.live l') m
      (LiveStep-IsSound step (AllValues-get EntrySound id (SessionEntry.live l) m a here)) a
Step-AllSound {m} (start before now id target cols rows spawned) a =
    start-AllSound before m now id target cols rows spawned a
Step-AllSound {m} (stop id) a = AllValues-remove EntrySound id m a
Step-AllSound {m} (pty_exit id) a = AllValues-remove EntrySound id m a
Step-AllSound {m} (evict now uid reason) a =
    AllValues-map_values EntrySound (evict_entry now uid reason) m (evicted_entry now uid reason) a
Step-AllSound {m} (gc now ttl) a = AllValues-retain EntrySound _ m a
Step-AllSound {m} (reserve now id target) a =
    ground (arith, a, AllValues-insert EntrySound id (SessionEntry.pending target now) m tt a)
Step-AllSound {m} (release id) a = ground (arith, a, AllValues-remove EntrySound id m a)
Step-AllSound {m} (reaped now timeout ids) a = reap-AllSound now timeout ids m a

Reach-AllSound : {m : Sessions} → Reach m → AllSound m
Reach-AllSound empty = tt
Reach-AllSound (next r step) = Step-AllSound step (Reach-AllSound r)

-- In every live session of the hub, whatever the tasks do and in whatever order, with chunks of
-- output shorter than 2^63 bytes: a user is shown as present exactly if one of their connections
-- is counted, every count is positive, the idle clock runs exactly while nobody is connected, the
-- chat history and the scrollback keep their caps, and the scrollback is the end of the output.
pub Reach-IsSound :
    (m : Sessions) (id : ℕ) (l : LiveSession)
    → Reach m
    → get id m ≡ some (SessionEntry.live l)
    → IsSound l
Reach-IsSound m id l r here =
    AllValues-get EntrySound id (SessionEntry.live l) m (Reach-AllSound r) here
