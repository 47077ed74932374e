-- ===== src/Control/Recordings.antt =====
-- crates/telepair-control/src/recording_service.rs: recordings and their share links above the
-- store. The directory and its files are the file system's: an argument says whether a call on it
-- succeeds. What `parse_from_rfc3339` makes of an instant is an argument too.
use telepair.Base.{
  ℕ, ◌+◌, ◌*◌, Bool, true, false, ◌&&◌, Option, none, some, String, if◌then◌else◌, ◌==◌, leb,
}
use telepair.Core.Failure.{Message, Error, Result, ok, err, ◌>>=◌}
use telepair.Core.Status.{is_recording}
use telepair.Core.Records.{RecordingRow, RecordingShareRow}
use telepair.Storage.{Database, Host}
use telepair.Storage.Recordings
use telepair.Storage.Recordings.{
  find_active_recording, get_recording, set_recording_expiry, consume_recording_share,
  create_recording_share,
}

-- `dir` is the file system's.
pub record RecordingConfig : Type 0 where
  pub enabled : Bool
  pub ttl_days : ℕ

unfoldable pub should_record : RecordingConfig → Option Bool → Bool
should_record config none = config.enabled
should_record config (some v) = v && config.enabled

-- In seconds; `0` days are for ever.
unfoldable pub compute_expires_at : RecordingConfig → ℕ → Option ℕ
compute_expires_at config now =
    if config.ttl_days == 0 then none else some (now + config.ttl_days * 86400)

-- The directory can be made, or an error.
abbrev pub create_dir_all : Bool → Result (Unit {0})
create_dir_all true = ok tt
create_dir_all false = err (Error.internal (Message.text "failed to create recordings dir"))

-- `file_name` writes `<id>.cast` for an identifier.
unfoldable pub create_recording :
    (ℕ → String)
    → RecordingConfig
    → (dir_made : Bool) → Host
    → (session_id created_by width height : ℕ) → Database
    → Result (RecordingRow × Database)
create_recording file_name config dir_made host session_id created_by width height db =
    elim (find_active_recording session_id db) [
      | some existing ↦ err (
          Error.conflict (
            Message.join (Message.about "session " session_id " already has an active recording: ")
              (Message.about "" existing.id "")))
      | none ↦ create_dir_all dir_made >>= λ u.
          Recordings.create_recording host host.nanoid session_id created_by width height
            (file_name host.nanoid) (compute_expires_at config host.now) db
    ]

-- The removal of a file: it went well, or the file was not there, or neither.
pub data Removal : Type 0 where
  removed missing failed : Removal

-- The row stays if its file does.
unfoldable pub delete_recording : Removal → ℕ → Database → Result (Unit {0} × Database)
delete_recording removal id db = elim (get_recording id db) [
  | none ↦ ok (tt, db)
  | some row ↦
      if is_recording row.status
      then err (
          Error.conflict
            (Message.about "recording " id " is still being captured; stop it before deleting"))
      else (elim removal [
        | Removal.failed ↦
            err (Error.internal (Message.about "failed to remove recording file " id ".cast"))
        | _ ↦ ok (tt, Recordings.delete_recording id db)
      ])
]

abbrev pub not_rfc3339 {ℓ} : {A : Type ℓ} → Result A
not_rfc3339 = err (Error.invalid_input (Message.text "expires_at must be an RFC3339 timestamp"))

unfoldable pub validate_rfc3339_utc : Option ℕ → Result ℕ
validate_rfc3339_utc none = not_rfc3339
validate_rfc3339_utc (some at) = ok at

unfoldable pub validate_future_rfc3339_utc : ℕ → Option ℕ → Result ℕ
validate_future_rfc3339_utc now none = not_rfc3339
validate_future_rfc3339_utc now (some at) =
    if leb at now
    then err (Error.invalid_input (Message.text "expires_at must be in the future"))
    else ok at

unfoldable pub set_expiry : ℕ → Option ℕ → Database → Result (Unit {0} × Database)
set_expiry id expires_at db =
    validate_rfc3339_utc expires_at >>= λ normalised. set_recording_expiry id normalised db

-- The expiry of a new share, if it has one.
abbrev pub share_expiry : ℕ → Option (Option ℕ) → Result (Option ℕ)
share_expiry now none = ok none
share_expiry now (some raw) = validate_future_rfc3339_utc now raw >>= λ at. ok (some at)

module _ (token_sha256 : ℕ → ℕ) where
  -- A limit that is not negative.
  unfoldable pub create_share :
      Host
      → (recording_id max_uses : ℕ) → Option (Option ℕ)
      → Database
      → Result (ℕ × RecordingShareRow × Database)
  create_share host recording_id max_uses expires_at db =
      share_expiry host.now expires_at >>= λ normalised. (elim (get_recording recording_id db) [
        | none ↦ err (Error.invalid_input (Message.about "recording not found: " recording_id ""))
        | some row ↦
            create_recording_share host recording_id (token_sha256 host.raw_token) max_uses
              normalised db
            >>= λ (share, db'). ok (host.raw_token, share, db')
      ])

  unfoldable pub validate_share_token :
      Host
      → (raw_token expected_recording_id : ℕ) → Database
      → Result (RecordingShareRow) × Database
  validate_share_token host raw_token expected_recording_id db =
      let (found, db') =
        consume_recording_share host (token_sha256 raw_token) expected_recording_id db in
      (
        elim found [
          | none ↦
              err (Error.invalid_input (Message.text "invalid, expired, or exhausted share token"))
          | some share ↦ ok share
        ],
        db',
      )
