-- ===== src/Control/Redeem/Guests.antt =====
-- A redemption in invite_service.rs by a caller with no account, who tries up to five guest names.
use telepair.Base.{
  ◌⊎◌, ℕ, zero, suc, ◌<◌, ◌≡◌, sym, refl, true, false, none, some, arith, String, Bool-cases, inl,
  inr,
}
use telepair.Base.Rows.{find, update_where}
use telepair.Core.Failure.{Error, Result, ok, err, Result-cases, is_unique_violation, >>=-eq-ok}
use telepair.Core.Status.{ApprovalState}
use telepair.Storage.Accounts.{validate_token}
use telepair.Storage.Sessions.Joining.{upsert_row_frame}
use telepair.Core.Records.{User, InviteToken, RedeemIdentity, RedeemOutcome}
use telepair.Storage.{Database, Host, insert_user_row}
use telepair.Storage.Sessions.{find_active_participant_role, session_alive, upsert_row}
use telepair.Storage.Invites.{
  redeem_invite, invite_is, diagnose, member_name, check_invite_validity, use_once, join_session,
  resolve_identity,
}
use telepair.Storage.Invites.Redeem.{UniqueInvites, UniqueSessions, redeem_known}
use telepair.Storage.Invites.Joining.{spend, redeem_invite_joins}
use telepair.Control.Redeem.{
  RedeemResult, redeem_new, redeem_as_guest, preview, redeemed, exhausted, guest_name_max_attempts,
}
use telepair.Control.Redeem.Granted.{preview_ok}

guest-token :
    (token_sha256 : ℕ → ℕ) (host : Host) (i : InviteToken) (name : String) (db : Database)
    {out : RedeemOutcome} {db' : Database}
    → join_session token_sha256 host i (RedeemIdentity.new_guest name) db ≡ ok (out, db')
    → (u : User) × (validate_token token_sha256 host.raw_token db' ≡ ok u)
      × (u.id ≡ host.uuid)
      × (u.scoped_session_id ≡ some i.session_id)
      × (u.is_admin ≡ false)
unfolding join_session resolve_identity insert_user_row validate_token find
guest-token token_sha256 host i name db h =
    let (r, resolved, rest) =
      >>=-eq-ok (resolve_identity token_sha256 host i (RedeemIdentity.new_guest name) db) _ h in
    let (db'', joined, done) = >>=-eq-ok (upsert_row i.session_id r.0 i.role host.now r.3) _ rest in
    (
      record {
        id = host.uuid;
        name = name;
        is_admin = false;
        scoped_session_id = some i.session_id;
        email = none;
        session_enabled = true;
        approval_state = ApprovalState.approved;
        created_at = host.now;
        updated_at = host.now;
      },
      ground (arith, resolved, done, upsert_row_frame i.session_id r.0 i.role host.now r.3 joined),
      refl,
      refl,
      refl,
    )

module _ (token_sha256 : ℕ → ℕ) (draws : ℕ → Host × String) (token : ℕ) (db : Database) where
  -- The transaction of one attempt.
  abbrev pub attempt : ℕ → Result (RedeemOutcome × Database)
  attempt k = redeem_invite token_sha256 (draws k).0 token (RedeemIdentity.new_guest (draws k).1) db

  -- The name of the attempt is taken.
  abbrev pub NameTaken : ℕ → Type 0
  NameTaken k = (e : Error) × (attempt k ≡ err e) × (is_unique_violation e ≡ true)

  attempts_ok :
      (n : ℕ) (last : Error) (out : RedeemOutcome × Database)
      → redeem_as_guest token_sha256 n draws token last db ≡ ok out
      → (k : ℕ) × (attempt k ≡ ok out)
  unfolding redeem_as_guest
  attempts_ok zero last out h = cc
  attempts_ok (suc n) last out h = elim (Result-cases (attempt n)) [
    | inr (o, done) ↦ (n, ground (arith, done))
    | inl (e, failed) ↦ elim (Bool-cases (is_unique_violation e)) [
      | inl taken ↦ attempts_ok n e out (ground (arith, failed, taken))
      | inr other ↦ ground (arith, failed, other)
    ]
  ]

  attempts_err :
      (n : ℕ) (last e : Error)
      → redeem_as_guest token_sha256 n draws token last db ≡ err e
      → is_unique_violation e ≡ true
      → (k : ℕ) → k < n
      → NameTaken k
  unfolding redeem_as_guest
  attempts_err zero last e h u k few = ground arith
  attempts_err (suc n) last e h u k few = elim (Result-cases (attempt n)) [
    | inr (o, done) ↦ ground (arith, done)
    | inl (f, failed) ↦ elim (Bool-cases (is_unique_violation f)) [
      | inr other ↦ ground (arith, failed, other)
      | inl taken ↦ elim (last_or_before n k few) [
        | inl same ↦ rw same (f, failed, taken)
        | inr before ↦ attempts_err n f e (ground (arith, failed, taken)) u k before
      ]
    ]
  ]
    where
      last_or_before : (n k : ℕ) → k < suc n → (k ≡ n) ⊎ (k < n)
      last_or_before n k few = ground arith

  -- A guest is let in by a transaction that joins, never by one that finds a member.
  attempt-joins :
      (k : ℕ) (i : InviteToken) {out : RedeemOutcome} {db' : Database}
      → UniqueInvites db
      → find (invite_is (token_sha256 token)) db.invite_tokens ≡ some i
      → attempt k ≡ ok (out, db')
      → (out.was_already_member ≡ false)
        × (out.invite ≡ use_once i)
        × (out.issued_token ≡ some (draws k).0.raw_token)
        × (out.user_id ≡ (draws k).0.uuid)
  unfolding diagnose check_invite_validity member_name join_session resolve_identity
  attempt-joins k i u found h =
      let known =
        redeem_known token_sha256 (draws k).0 token (RedeemIdentity.new_guest (draws k).1) db i u
          found in
      ground (arith, known)

  -- The token that a guest is given is the token of the guest's account.
  attempt-token :
      (k : ℕ) (i : InviteToken) {out : RedeemOutcome} {db' : Database}
      → UniqueInvites db
      → find (invite_is (token_sha256 token)) db.invite_tokens ≡ some i
      → attempt k ≡ ok (out, db')
      → (u : User) × (validate_token token_sha256 (draws k).0.raw_token db' ≡ ok u)
        × (u.id ≡ (draws k).0.uuid)
        × (u.scoped_session_id ≡ some i.session_id)
        × (u.is_admin ≡ false)
  unfolding diagnose check_invite_validity member_name
  attempt-token k i {out} {db'} u found h =
      let known =
        redeem_known token_sha256 (draws k).0 token (RedeemIdentity.new_guest (draws k).1) db i u
          found in
      let joined : join_session token_sha256 (draws k).0 (use_once i)
            (RedeemIdentity.new_guest (draws k).1)
            (record db {
              invite_tokens =
                  update_where (invite_is (token_sha256 token)) use_once db.invite_tokens;
            })
          ≡ ok (out, db') =
        ground (arith, known) in
      guest-token token_sha256 (draws k).0 (use_once i) (draws k).1 _ joined

  -- What a redemption that is granted leaves.
  abbrev pub Granted : RedeemResult → Database → Type 0
  Granted r db' =
      (i : InviteToken) × (find (invite_is (token_sha256 token)) db.invite_tokens ≡ some i)
      × (session_alive i.session_id db.sessions ≡ true)
      × (i.used_count < i.max_uses)
      × (db'.invite_tokens ≡ (spend token_sha256 (draws 0).0 token db).invite_tokens)
      × (r.session_id ≡ i.session_id)
      × (r.role ≡ i.role)
      × (k : ℕ) × (r.issued_token ≡ some (draws k).0.raw_token)
      × (find_active_participant_role i.session_id (draws k).0.uuid db' ≡ some i.role)
      × (u : User) × (validate_token token_sha256 (draws k).0.raw_token db' ≡ ok u)
      × (u.id ≡ (draws k).0.uuid)
      × (u.scoped_session_id ≡ some i.session_id)
      × (u.is_admin ≡ false)

  abbrev all_attempts : Result (RedeemOutcome × Database)
  all_attempts = redeem_as_guest token_sha256 guest_name_max_attempts draws token exhausted db

  granted :
      (i : InviteToken) (r : RedeemResult)
      → UniqueInvites db
      → UniqueSessions db
      → preview token_sha256 token db ≡ ok i
      → (redeemed true db all_attempts).answer ≡ ok r
      → Granted r (redeemed true db all_attempts).database
  granted i r u v live h = elim (Result-cases all_attempts) [
    | inl (e, bad) ↦ ground (arith, bad)
    | inr ((out, db'), done) ↦
        let (found, alive_now) = preview_ok token_sha256 token db i v live in
        let (k, tried) = attempts_ok guest_name_max_attempts exhausted (out, db') done in
        let (fresh, invite, issued, who) = attempt-joins k i u found tried in
        let (left, unexpired_now, still, spent, who', role) =
          redeem_invite_joins token_sha256 (draws k).0 token (RedeemIdentity.new_guest (draws k).1)
            db i u found tried fresh in
        let account = attempt-token k i u found tried in
        (
          i,
          found,
          alive_now,
          left,
          rw done spent,
          ground (arith, done, invite),
          ground (arith, done, invite),
          k,
          ground (arith, done, issued),
          rw done (rw (sym who) role),
          account.0,
          rw done account.1,
          account.2,
          account.3,
          account.4,
        )
  ]

  -- On a database with unique invite digests and session ids, a redemption by a caller with no
  -- account that is granted is for an active session: one use of its invite is spent, which had not
  -- run out, and a fresh account, which the token of the answer authenticates, which is no
  -- administrator and is bound to that session, has the invite's role there.
  -- A redemption that is refused changes nothing, and once the invite and its session pass the
  -- preview it is refused for a name that is taken only if all five names were.
  pub redeem_new-joins :
      UniqueInvites db
      → UniqueSessions db
      → ((r : RedeemResult)
          → (redeem_new token_sha256 draws token db).answer ≡ ok r
          → Granted r (redeem_new token_sha256 draws token db).database)
        × ((e : Error)
            → (redeem_new token_sha256 draws token db).answer ≡ err e
            → ((redeem_new token_sha256 draws token db).database ≡ db)
              × ((i : InviteToken)
                  → preview token_sha256 token db ≡ ok i
                  → is_unique_violation e ≡ true
                  → (k : ℕ) → k < 5
                  → NameTaken k))
  unfolding redeem_new
  redeem_new-joins u v = (
    λ r h. elim (Result-cases (preview token_sha256 token db)) [
      | inl (e, dead) ↦ ground (arith, dead)
      | inr (i, live) ↦ rw (redeem_new, live) (granted i r u v live (ground (arith, live)))
    ],
    λ e h. elim (Result-cases (preview token_sha256 token db)) [
      | inl (e', dead) ↦ (ground (arith, dead), λ i live. ground (arith, dead))
      | inr (i, live) ↦ elim (Result-cases all_attempts) [
        | inr (out, done) ↦ ground (arith, live, done)
        | inl (f, bad) ↦ (
          ground (arith, live, bad),
          λ j shown taken.
              attempts_err guest_name_max_attempts exhausted e (ground (arith, live, bad)) taken,
        )
      ]
    ],
  )
