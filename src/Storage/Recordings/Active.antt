-- ===== src/Storage/Recordings/Active.antt =====
-- A session has at most one recording in progress.
use telepair.Base.{ℕ, ◌≤◌, true, ◌≡◌, refl, none, Option, List, [], ◌∷◌, String, arith}
use telepair.Base.Rows.{find, update_where, delete_where, count_where}
use telepair.Core.Failure.{ok}
use telepair.Core.Status.{is_recording}
use telepair.Core.Records.{RecordingRow}
use telepair.Storage.Db.{Database, Host}
use telepair.Storage.Recordings.{
  recording_is, active_in, create_recording, update_recording, complete_recording, fail_recording,
  delete_recording, set_recording_permanent, set_recording_expiry, completed_row, failed_row,
}

-- Of each session at most one row is in progress.
abbrev pub OneActive : Database → Type 0
OneActive db = (sid : ℕ) → count_where (active_in sid) db.recordings ≤ 1

count_absent :
    (sid : ℕ) (rs : List RecordingRow)
    → find (active_in sid) rs ≡ none
    → count_where (active_in sid) rs ≡ 0
unfolding find count_where
count_absent sid [] h = refl
count_absent sid (r ∷ rs) h = ground (arith, count_absent sid rs)

-- An update that starts no recording and moves none to another session.
abbrev Settles : (RecordingRow → RecordingRow) → Type 0
Settles f = (sid : ℕ) (r : RecordingRow) → active_in sid (f r) ≡ true → active_in sid r ≡ true

count-update :
    (sid id : ℕ) (f : RecordingRow → RecordingRow) (rs : List RecordingRow)
    → Settles f
    → count_where (active_in sid) (update_where (recording_is id) f rs)
      ≤ count_where (active_in sid) rs
unfolding count_where update_where
count-update sid id f [] s = omega arith
count-update sid id f (r ∷ rs) s = ground (arith, s sid r, count-update sid id f rs s)

count-delete :
    (sid id : ℕ) (rs : List RecordingRow)
    → count_where (active_in sid) (delete_where (recording_is id) rs)
      ≤ count_where (active_in sid) rs
unfolding count_where delete_where
count-delete sid id [] = omega arith
count-delete sid id (r ∷ rs) = ground (arith, count-delete sid id rs)

update_recording-OneActive :
    (id : ℕ) (f : RecordingRow → RecordingRow) (db : Database) {db' : Database}
    → Settles f
    → OneActive db
    → update_recording id f db ≡ ok (tt, db')
    → OneActive db'
unfolding update_recording
update_recording-OneActive id f db s one h sid =
    ground (arith, one sid, count-update sid id f db.recordings s)

-- The methods that write recordings.
pub data Step : Database → Database → Type 0 where
  create :
      (host : Host) (id sid by width height : ℕ) (path : String) (expires : Option ℕ)
      {db db' : Database} (row : RecordingRow)
      → create_recording host id sid by width height path expires db ≡ ok (row, db')
      → Step db db'
  complete :
      (host : Host) (id ms events size : ℕ) {db db' : Database}
      → complete_recording host id ms events size db ≡ ok (tt, db')
      → Step db db'
  fail :
      (host : Host) (id : ℕ) {db db' : Database}
      → fail_recording host id db ≡ ok (tt, db')
      → Step db db'
  keep : (id : ℕ) {db db' : Database} → set_recording_permanent id db ≡ ok (tt, db') → Step db db'
  expire :
      (id at : ℕ) {db db' : Database} → set_recording_expiry id at db ≡ ok (tt, db') → Step db db'
  delete : (id : ℕ) (db : Database) → Step db (delete_recording id db)

pub data Reach (start : Database) : Database → Type 0 where
  here : Reach start start
  next : {db db' : Database} → Reach start db → Step db db' → Reach start db'

create-OneActive :
    (host : Host) (id sid by width height : ℕ) (path : String) (expires : Option ℕ) (db : Database)
    {db' : Database} (row : RecordingRow)
    → OneActive db
    → create_recording host id sid by width height path expires db ≡ ok (row, db')
    → OneActive db'
unfolding create_recording count_where is_recording
create-OneActive host id sid by width height path expires db row one h other =
    ground (arith, one other, count_absent other db.recordings)

Step-OneActive : {db db' : Database} → OneActive db → Step db db' → OneActive db'
unfolding complete_recording fail_recording set_recording_permanent set_recording_expiry
    delete_recording is_recording
Step-OneActive {db} one (create host id sid by width height path expires row h) =
    create-OneActive host id sid by width height path expires db row one h
Step-OneActive {db} one (complete host id ms events size h) =
    update_recording-OneActive id (completed_row host.now ms events size) db
      (λ sid r e. ground arith) one h
Step-OneActive {db} one (fail host id h) =
    update_recording-OneActive id (failed_row host.now) db (λ sid r e. ground arith) one h
Step-OneActive {db} one (keep id h) =
    update_recording-OneActive id _ db (λ sid r e. ground arith) one h
Step-OneActive {db} one (expire id at h) =
    update_recording-OneActive id _ db (λ sid r e. ground arith) one h
Step-OneActive one (delete id db) = λ sid. omega (arith, one sid, count-delete sid id db.recordings)

-- From a database where no session has two recordings in progress, whatever recordings are
-- started, finished, kept, expired or deleted, and in whatever order, none ever has.
pub Reach-OneActive : {start db : Database} → OneActive start → Reach start db → OneActive db
Reach-OneActive one here = one
Reach-OneActive one (next r s) = Step-OneActive (Reach-OneActive one r) s
