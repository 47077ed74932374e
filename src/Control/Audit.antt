-- ===== src/Control/Audit.antt =====
-- The audit rows that the services of crates/telepair-control/src and the handlers of
-- crates/telepair-gateway/src write, with the columns and details that they fill, less the actor's
-- name, which goes with the actor. `record` swallows its own failures.
use telepair.Base.{ℕ, Bool, Option, List, [], String}
use telepair.Core.Failure.{Result, err, Error}
use telepair.Core.Role.{Role}
use telepair.Core.Status.{InputMode, CloseReason}
use telepair.Storage.{Database}

pub data AuditEntry : Type 0 where
  login_failed :
      (actor : Option ℕ) (email : ℕ) (reason : String) (remaining locked_until : Option ℕ)
      → AuditEntry
  register_rejected : (email : ℕ) (reason : String) → AuditEntry
  register_completed : (actor email : ℕ) → AuditEntry
  verify_failed : (email : ℕ) (reason : String) (remaining : Option ℕ) → AuditEntry
  session_created : (actor session : ℕ) (target_name : String) (input_mode : InputMode) → AuditEntry
  participant_joined : (actor session : ℕ) → Role → AuditEntry
  session_closed :
      (actor : Option ℕ) (session : ℕ) → CloseReason → (duration_s : Option ℕ) → AuditEntry
  sessions_closed : CloseReason → (count : ℕ) → AuditEntry
  session_access_denied : (actor : ℕ) (path : String) (session : Option ℕ) → AuditEntry
  target_access_denied : (actor : ℕ) (target_name : String) → AuditEntry
  invite_minted :
      (actor session token_sha256 : ℕ) → Role → (max_uses : ℕ) (expires_at : Option ℕ) → AuditEntry
  invite_redeemed : (actor session token_sha256 : ℕ) → Role → (as_guest : Bool) → AuditEntry
  invite_revoked : (actor session token_sha256 : ℕ) → Role → AuditEntry
  password_changed : (actor : ℕ) (email : Option ℕ) → AuditEntry
  user_enabled user_disabled : (actor target : ℕ) → AuditEntry
  participant_role_changed : (actor session target : ℕ) (old_role new_role : Role) → AuditEntry
  recording_started recording_stopped : (actor session recording : ℕ) → AuditEntry
  target_reloaded : (actor targets : ℕ) → AuditEntry

-- What a call leaves behind.
pub record Outcome {ℓ} (A : Type ℓ) : Type ℓ where
  pub answer : Result A
  pub database : Database
  pub audit : List AuditEntry

-- A call that fails leaves no trace, and one that only reads leaves none either.
abbrev pub failed {ℓ} : {A : Type ℓ} → Error → Database → Outcome A
failed e db = record { answer = err e; database = db; audit = [] }

abbrev pub answered {ℓ} : {A : Type ℓ} → Result A → Database → Outcome A
answered r db = record { answer = r; database = db; audit = [] }
