-- ===== src/Gateway/Recordings/Made.antt =====
-- The row and the slot of a recording that http.rs starts, and what the roll-back leaves of them.
use telepair.Base.{
  ℕ, ◌≡◌, refl, Bool, true, false, ◌==◌, Option, none, some, List, [], ◌∷◌, arith, String,
  Option-cases, Bool-cases, inl, inr,
}
use telepair.Base.Rows.{find, update_where}
use telepair.Base.Dict.{get, insert, get-insert}
use telepair.Core.Failure.{ok}
use telepair.Core.Status.{is_recording}
use telepair.Core.Records.{RecordingRow}
use telepair.Storage.{Database, Host}
use telepair.Storage.Recordings as Store
use telepair.Storage.Recordings.{
  recording_is, find_active_recording, update_recording, fail_recording, failed_row, active_in,
}
use telepair.Hub.Live
use telepair.Hub.Live.{LiveSession}
use telepair.Hub.Sessions.{
  SessionEntry, Sessions, get_live, with_live, has_recording, broadcast_collab, change_live,
}
use telepair.Control.Recordings
use telepair.Core.Protocol.{ServerMessage}
use telepair.Hub.Recorder.{RecordingSlot}
use telepair.Control.Recordings.{compute_expires_at, RecordingConfig}
use telepair.Gateway.Recordings.{install_slot, rolled_back}

-- A write to an identifier that no row has changes nothing.
update_absent :
    (id : ℕ) (f : RecordingRow → RecordingRow) (rs : List RecordingRow)
    → find (recording_is id) rs ≡ none
    → update_where (recording_is id) f rs ≡ rs
unfolding find update_where
update_absent id f [] h = refl
update_absent id f (r ∷ rs) h = ground (arith, h, update_absent id f rs)

-- A row that the store made: nobody else has its identifier.
stored :
    (host : Host) (id sid by width height : ℕ) (path : String) (expires : Option ℕ) (db : Database)
    {r : RecordingRow} {db' : Database}
    → Store.create_recording host id sid by width height path expires db ≡ ok (r, db')
    → (find_active_recording sid db' ≡ some r)
      × (r.created_by ≡ by)
      × (find (recording_is r.id) db.recordings ≡ none)
      × (db'.recordings ≡ r ∷ db.recordings)
unfolding Store.create_recording find_active_recording find is_recording
stored host id sid by width height path expires db h =
    elim (Option-cases (find (recording_is id) db.recordings)) [
      | inr (e, there) ↦ ground (arith, h, there)
      | inl free ↦ ground (arith, h, free)
    ]

module _ (file_name : ℕ → String) (config : RecordingConfig) (dir_made : Bool) (host : Host)
    (sid by width height : ℕ) (db : Database) {r : RecordingRow} {db' : Database}
    (made : Recordings.create_recording file_name config dir_made host sid by width height db
      ≡ ok (r, db')) where
  pub row_made :
      (find_active_recording sid db ≡ none)
      × (find_active_recording sid db' ≡ some r)
      × (r.created_by ≡ by)
      × (find (recording_is r.id) db.recordings ≡ none)
      × (db'.recordings ≡ r ∷ db.recordings)
  unfolding Recordings.create_recording
  row_made = elim (Option-cases (find_active_recording sid db)) [
    | inr (e, there) ↦ ground (arith, made, there)
    | inl free ↦
        let rest : Store.create_recording host host.nanoid sid by width height
              (file_name host.nanoid) (compute_expires_at config host.now) db
            ≡ ok (r, db') =
          elim (Bool-cases dir_made) [
            | inl can ↦ ground (arith, made, free, can)
            | inr cannot ↦ ground (arith, made, free, cannot)
          ] in
        let (now, mine, fresh, grown) = stored host host.nanoid sid by width height _ _ db rest in
        (free, now, mine, fresh, grown)
  ]

  -- What the roll-back leaves: the row has failed, and no recording is active but those before.
  pub undone :
      (other : ℕ)
      → find_active_recording other (rolled_back (fail_recording host r.id db') db')
        ≡ find_active_recording other db
  unfolding fail_recording update_recording find_active_recording find update_where is_recording
  undone other =
      let (free, now, mine, fresh, grown) = row_made in
      let same = update_absent r.id (failed_row host.now) db.recordings fresh in
      rw (grown) (ground (arith, same))

pub hub_of :
    (sid other : ℕ) (slot : RecordingSlot) (m : Sessions) {reason : String} {m' : Sessions}
    → install_slot slot sid m ≡ (inl reason, m')
    → get other m' ≡ get other m
unfolding install_slot with_live get_live Live.start_recording
hub_of sid other slot m h = elim (Option-cases (get sid m)) [
  | inl absent ↦ ground (arith, h, absent)
  | inr (SessionEntry.pending name at, found) ↦ ground (arith, h, found)
  | inr (SessionEntry.live l, found) ↦
      let again = get-insert sid other (SessionEntry.live l) m in
      elim (Option-cases l.recording) [
        | inl idle ↦ ground (arith, h, found, idle)
        | inr (busy, there) ↦ elim (Bool-cases (sid == other)) [
          | inl same ↦
              let eq : sid ≡ other = ground arith in
              let here : get other m ≡ some (SessionEntry.live l) = rw (← eq) found in
              ground (arith, h, found, there, again, here)
          | inr apart ↦ ground (arith, h, found, there, again, apart)
        ]
      ]
]

-- A slot that was installed is there, also after a broadcast, and none was there before.
pub taken :
    (sid : ℕ) (slot : RecordingSlot) (msg : ServerMessage) (m : Sessions) {u : Unit {0}}
    {m' : Sessions}
    → install_slot slot sid m ≡ (inr u, m')
    → (has_recording sid m ≡ false) × (has_recording sid (broadcast_collab msg sid m') ≡ true)
unfolding install_slot with_live get_live Live.start_recording has_recording broadcast_collab
    change_live
taken sid slot msg m {u} {m'} h = elim (Option-cases (get sid m)) [
  | inl absent ↦ ground (arith, h, absent)
  | inr (SessionEntry.pending name at, found) ↦ ground (arith, h, found)
  | inr (SessionEntry.live l, found) ↦
      let l' = record l { recording = some slot } in
      let there = get-insert sid sid (SessionEntry.live l') m in
      elim (Option-cases l.recording) [
        | inr (busy, taken_before) ↦ ground (arith, h, found, taken_before)
        | inl idle ↦
            let left : m' ≡ insert sid (SessionEntry.live l') m = ground (arith, h, found, idle) in
            let now : get sid m' ≡ some (SessionEntry.live l') = rw left (ground (arith, there)) in
            (
              ground (arith, found, idle),
              ground
                  (arith, now, get-insert sid sid (SessionEntry.live (Live.broadcast msg l')) m'),
            )
      ]
]
