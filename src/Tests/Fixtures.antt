-- ===== src/Tests/Fixtures.antt =====
-- A small database and a small hub.
use telepair.Base.{ℕ, ◌+◌, true, false, none, some, [], ◌∷◌, String}
use telepair.Core.Failure.{Result, ok, err}
use telepair.Core.Role.{Role}
use telepair.Core.Status.{InputMode, SessionStatus, ApprovalState}
use telepair.Core.Records.{Session, Participant, InviteToken, RecordingShareRow, UserTarget}
use telepair.Storage.{Database, Host, UserRow, PendingRow}

-- Stands for the digest of the sha2 crate.
abbrev pub sha : ℕ → ℕ
sha token = token + 1000

abbrev pub at : ℕ → Host
at now = record { now = now; uuid = 50; nanoid = 60; raw_token = 70 }

abbrev pub account : ℕ → String → ℕ → UserRow
account id name token = record {
  user = record {
    id = id;
    name = name;
    is_admin = false;
    scoped_session_id = none;
    email = some (id + 500);
    session_enabled = true;
    approval_state = ApprovalState.approved;
    created_at = 1;
    updated_at = 1;
  };
  token_sha256 = sha token;
  password_hash = some "old";
  verified = true;
  login_failed_count = 0;
  login_locked_until = none;
}

abbrev pub shell : Session
shell = record {
  id = 7;
  owner_id = 1;
  target_name = "dev";
  input_mode = InputMode.serialized;
  status = SessionStatus.active;
  created_at = 2;
  closed_at = none;
  closed_reason = none;
  user_target_id = none;
}

abbrev pub owner : Participant
owner = record { session_id = 7; user_id = 1; role = Role.owner; joined_at = 2; left_at = none }

abbrev pub invite : InviteToken
invite = record {
  token_sha256 = sha 9;
  session_id = 7;
  role = Role.viewer;
  max_uses = 1;
  used_count = 0;
  expires_at = some 100;
  created_at = some 3;
}

abbrev pub registration : PendingRow
registration = record {
  email = 800;
  display_name = "cy";
  password_hash = "hash";
  otp_code = 4242;
  otp_expires_at = 100;
  otp_failure_count = 0;
  created_at = 4;
  updated_at = 4;
}

abbrev pub share : RecordingShareRow
share = record {
  token_sha256 = 33;
  recording_id = 5;
  max_uses = 2;
  used_count = 1;
  expires_at = some 100;
  created_at = 6;
}

abbrev pub box : UserTarget
box = record {
  id = 90;
  user_id = 1;
  name = "box";
  display = "My box";
  command = "ssh";
  args = "box" ∷ [];
  env = [];
  tags = [];
  created_at = 5;
  updated_at = 5;
}

abbrev pub database : Database
database = record {
  users = account 1 "ada" 11 ∷ account 2 "bob" 22 ∷ [];
  sessions = shell ∷ [];
  participants = owner ∷ [];
  invite_tokens = invite ∷ [];
  pending_registrations = registration ∷ [];
  recordings = [];
  recording_shares = share ∷ [];
  user_targets = box ∷ [];
}

-- The database that a method leaves.
abbrev pub after : {A : Type 0} → Result (A × Database) → Database
after (ok (a, db)) = db
after (err e) = database

abbrev pub answer : {A : Type 0} → A → Result (A × Database) → A
answer a (ok (b, db)) = b
answer a (err e) = a
