-- ===== src/Storage/Invites.antt =====
-- crates/telepair-core/src/storage/sqlite.rs: invite tokens, and the transaction that redeems one.
-- The digest of a token (`token_sha256` of auth.rs, by the sha2 crate) is a parameter.
pub mod Redeem
pub mod Again
pub mod Joining
pub mod Lifecycle
use telepair.Base.{
  ℕ, ◌+◌, Bool, ◌&&◌, ◌||◌, true, false, not, Option, none, some, List, ◌∷◌, String, if◌then◌else◌,
  ◌==◌, ltb, leb,
}
use telepair.Base.Rows.{find, select_where, order_by, update_where, delete_where, exists_where}
use telepair.Core.Failure.{Message, Fault, Error, Result, ok, err, ◌>>=◌}
use telepair.Core.Role.{Role}
use telepair.Core.Status.{ApprovalState, is_active}
use telepair.Core.Records.{InviteToken, RedeemIdentity, RedeemOutcome}
use telepair.Storage.Db.{Database, Host, UserRow, is_null, unexpired, user_id_is, insert_user_row}
use telepair.Storage.Sessions.{
  has_session, session_is, session_alive, present_participant, upsert_row,
}

abbrev pub invite_is : ℕ → InviteToken → Bool
invite_is sha i = i.token_sha256 == sha

abbrev pub invalid_token : Error
invalid_token = Error.invalid_input (Message.text "invalid invite token")

unfoldable pub check_invite_validity : ℕ → InviteToken → Result (Unit {0})
check_invite_validity now invite =
    if not (is_null invite.expires_at) && expired invite.expires_at
    then err (Error.invalid_input (Message.text "invite token has expired"))
    else if leb invite.max_uses invite.used_count
    then err invalid_token
    else ok tt
  where
    expired : Option ℕ → Bool
    expired none = false
    expired (some at) = ltb at now

-- `COALESCE(created_at, '')`, which an instant comes after.
abbrev pub created_key : Option ℕ → ℕ
created_key none = 0
created_key (some at) = at + 1

-- `created_key DESC, token_sha256 ASC`
abbrev pub invite_before : InviteToken → InviteToken → Bool
invite_before i j =
    ltb (created_key j.created_at) (created_key i.created_at)
    || created_key i.created_at == created_key j.created_at && ltb i.token_sha256 j.token_sha256

unfoldable pub list_invites_for_session : ℕ → Database → List InviteToken
list_invites_for_session sid db =
    order_by invite_before (select_where (λ i. i.session_id == sid) db.invite_tokens)

unfoldable pub revoke_invite : ℕ → Database → Database
revoke_invite sha db = record db { invite_tokens = delete_where (invite_is sha) db.invite_tokens }

unfoldable pub find_invite_by_sha256 : ℕ → Database → Option InviteToken
find_invite_by_sha256 sha db = find (invite_is sha) db.invite_tokens

abbrev pub present : ℕ → ℕ → Database → Bool
present sid uid db = exists_where (present_participant sid uid) db.participants

-- The guard of the UPDATE that consumes a use, besides the digest: not exhausted, not expired, in
-- an active session; and for a known caller, not in the session yet.
unfoldable pub consumable : ℕ → RedeemIdentity → Database → InviteToken → Bool
consumable now (RedeemIdentity.existing uid) db i =
    ltb i.used_count i.max_uses
    && unexpired now i.expires_at
    && session_alive i.session_id db.sessions
    && not (present i.session_id uid db)
consumable now (RedeemIdentity.new_guest name) db i =
    ltb i.used_count i.max_uses
    && unexpired now i.expires_at
    && session_alive i.session_id db.sessions

abbrev pub use_once : InviteToken → InviteToken
use_once i = record i { used_count = i.used_count + 1 }

-- The name of a caller who is in the session already: the join of participants with users.
unfoldable pub member_name : ℕ → RedeemIdentity → Database → Option (ℕ × String)
member_name sid (RedeemIdentity.new_guest name) db = none
member_name sid (RedeemIdentity.existing uid) db =
    if present sid uid db
    then (elim (find (user_id_is uid) db.users) [ none ↦ none | some u ↦ some (uid, u.name) ])
    else none

-- The branch of zero updated rows, with the invite row that was found: which guard failed?
unfoldable pub diagnose :
    ℕ → InviteToken → RedeemIdentity → Database → Result (RedeemOutcome × Database)
diagnose now invite identity db = elim (find (session_is invite.session_id) db.sessions) [
  | none ↦ err (Error.session_not_found invite.session_id)
  | some s ↦
      if not (is_active s.status)
      then err (Error.session_closed invite.session_id)
      else (elim (member_name invite.session_id identity db) [
        | some (uid, name) ↦ ok (
          record {
            invite = invite;
            user_id = uid;
            user_name = name;
            issued_token = none;
            was_already_member = true;
          },
          db,
        )
        | none ↦ check_invite_validity now invite >>= λ _. err invalid_token
      ])
]

module _ (token_sha256 : ℕ → ℕ) where
  unfoldable pub create_invite :
      Host → ℕ → Role → ℕ → Option ℕ → Database → Result (InviteToken × ℕ × Database)
  create_invite host sid role max_uses expires_at db =
      if ltb max_uses 1
      then err (Error.invalid_input (Message.text "max_uses must be at least 1"))
      else if exists_where (invite_is invite.token_sha256) db.invite_tokens
      then err (Error.storage Fault.unique_violation)
      else if not (has_session sid db.sessions)
      then err (Error.storage Fault.other_fault)
      else ok (invite, host.raw_token, record db { invite_tokens = invite ∷ db.invite_tokens })
    where
      invite : InviteToken
      invite = record {
        token_sha256 = token_sha256 host.raw_token;
        session_id = sid;
        role = role;
        max_uses = max_uses;
        used_count = 0;
        expires_at = expires_at;
        created_at = some host.now;
      }

  unfoldable pub find_invite : ℕ → Database → Result InviteToken
  find_invite token db = elim (find (invite_is (token_sha256 token)) db.invite_tokens) [
    | none ↦ err invalid_token
    | some i ↦ ok i
  ]

  -- The identity of the caller; a guest is inserted with the session as the scope.
  unfoldable pub resolve_identity :
      Host → InviteToken → RedeemIdentity → Database → Result (ℕ × String × Option ℕ × Database)
  resolve_identity host invite (RedeemIdentity.existing uid) db =
      elim (find (user_id_is uid) db.users) [
        | none ↦ err (Error.invalid_input (Message.text "redeeming user not found"))
        | some u ↦ ok (uid, u.name, none, db)
      ]
  resolve_identity host invite (RedeemIdentity.new_guest name) db =
      insert_user_row guest db >>= λ db'. ok (host.uuid, name, some host.raw_token, db')
    where
      guest : UserRow
      guest = record {
        user = record {
          id = host.uuid;
          name = name;
          is_admin = false;
          scoped_session_id = some invite.session_id;
          email = none;
          session_enabled = true;
          approval_state = ApprovalState.approved;
          created_at = host.now;
          updated_at = host.now;
        };
        token_sha256 = token_sha256 host.raw_token;
        password_hash = none;
        verified = false;
        login_failed_count = 0;
        login_locked_until = none;
      }

  -- The rest of the transaction, once a use is consumed.
  unfoldable pub join_session :
      Host → InviteToken → RedeemIdentity → Database → Result (RedeemOutcome × Database)
  join_session host invite identity db =
      resolve_identity host invite identity db >>= λ (uid, name, issued, db').
      upsert_row invite.session_id uid invite.role host.now db' >>= λ db''. ok (
        record {
          invite = invite;
          user_id = uid;
          user_name = name;
          issued_token = issued;
          was_already_member = false;
        },
        db'',
      )

  unfoldable pub redeem_invite :
      Host → ℕ → RedeemIdentity → Database → Result (RedeemOutcome × Database)
  redeem_invite host token identity db =
      let sha = token_sha256 token in
      let guard = (λ (i : InviteToken). invite_is sha i && consumable host.now identity db i) in
      if exists_where guard db.invite_tokens
      then (let tokens = update_where guard use_once db.invite_tokens in
          elim (find (invite_is sha) tokens) [
            | none ↦ err (Error.storage Fault.other_fault)
            | some invite ↦ join_session host invite identity (record db { invite_tokens = tokens })
          ])
      else (elim (find (invite_is sha) db.invite_tokens) [
        | none ↦ err invalid_token
        | some invite ↦ diagnose host.now invite identity db
      ])
