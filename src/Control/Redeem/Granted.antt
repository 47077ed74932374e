-- ===== src/Control/Redeem/Granted.antt =====
-- What a redemption in invite_service.rs by a caller with an account grants.
use telepair.Base.{
  ℕ, ◌≡◌, refl, sym, ap, ◌∙◌, Bool, true, false, ◌&&◌, Option, none, some, List, [], ◌∷◌, arith,
  Option-cases, Bool-cases, inl, inr,
}
use telepair.Base.Rows.{find, exists_where}
use telepair.Base.Unique.{find-Unique}
use telepair.Core.Failure.{Result, ok, Result-cases}
use telepair.Core.Role.{Role}
use telepair.Core.Records.{User, InviteToken, Participant, RedeemIdentity, RedeemOutcome}
use telepair.Storage.{Database, Host}
use telepair.Storage.Sessions.{
  find_active_participant_role, present_participant, session_alive, get_session, session_is,
}
use telepair.Storage.Invites.{
  find_invite, redeem_invite, invite_is, consumable, use_once, diagnose, join_session, present,
  check_invite_validity,
}
use telepair.Storage.Invites.Redeem.{
  UniqueInvites, UniqueSessions, redeem_known, session_key, alive,
}
use telepair.Storage.Invites.Joining.{spend, diagnose_ok}
use telepair.Storage.Invites.Again.{join_session-Member, diagnose-Member}
use telepair.Control.Audit.{Outcome, answered}
use telepair.Control.Sessions.{get_session_required}
use telepair.Control.Redeem.{RedeemResult, redeem_existing, preview, redeemed, strays}

find-conjunct :
    (p q : Participant → Bool) (ps : List Participant) (x : Participant)
    → find (λ r. p r && q r) ps ≡ some x
    → exists_where p ps ≡ true
unfolding find
find-conjunct p q [] x h = cc
find-conjunct p q (r ∷ rs) x h = ground (arith, find-conjunct p q rs x)

role-present :
    (sid uid : ℕ) (db : Database) (role : Role)
    → find_active_participant_role sid uid db ≡ some role
    → present sid uid db ≡ true
unfolding find_active_participant_role
role-present sid uid db role h =
    elim (Option-cases (
      find (λ p. present_participant sid uid p && session_alive p.session_id db.sessions)
        db.participants)) [
          | inl none_found ↦ ground (arith, none_found)
          | inr (p, found) ↦
              find-conjunct (present_participant sid uid)
                (λ p. session_alive p.session_id db.sessions) db.participants p found
        ]

abbrev answer_of : Outcome RedeemResult → Result RedeemResult
answer_of out = out.answer

module _ (token_sha256 : ℕ → ℕ) where
  -- What a preview shows.
  pub preview_ok :
      (token : ℕ) (db : Database) (i : InviteToken)
      → UniqueSessions db
      → preview token_sha256 token db ≡ ok i
      → (find (invite_is (token_sha256 token)) db.invite_tokens ≡ some i)
        × (session_alive i.session_id db.sessions ≡ true)
  unfolding preview find_invite get_session_required get_session
  preview_ok token db i v h =
      elim (Option-cases (find (invite_is (token_sha256 token)) db.invite_tokens)) [
        | inl absent ↦ ground (arith, absent)
        | inr (j, found) ↦ elim (Option-cases (find (session_is j.session_id) db.sessions)) [
          | inl gone ↦ ground (arith, found, gone)
          | inr (s, s_found) ↦ ground (
            arith,
            found,
            s_found,
            find-Unique session_key j.session_id alive db.sessions s v s_found,
          )
        ]
      ]

  pub join_session-invite :
      (host : Host) (i : InviteToken) (identity : RedeemIdentity) (db : Database)
      {out : RedeemOutcome} {db' : Database}
      → join_session token_sha256 host i identity db ≡ ok (out, db')
      → out.invite ≡ i
  unfolding join_session
  join_session-invite host i identity db h = ground arith

  redeem_invite-member :
      (host : Host) (token uid : ℕ) (db : Database) (i : InviteToken) {out : RedeemOutcome}
      {db' : Database}
      → UniqueInvites db
      → UniqueSessions db
      → find (invite_is (token_sha256 token)) db.invite_tokens ≡ some i
      → redeem_invite token_sha256 host token (RedeemIdentity.existing uid) db ≡ ok (out, db')
      → (present i.session_id uid db' ≡ true) × (out.invite.session_id ≡ i.session_id)
  unfolding diagnose check_invite_validity
  redeem_invite-member host token uid db i {out} {db'} u v found h =
      let caller = RedeemIdentity.existing uid in
      let known = redeem_known token_sha256 host token caller db i u found in
      elim (Bool-cases (consumable host.now caller db i)) [
        | inl c ↦
            let joined : join_session token_sha256 host (use_once i) caller
                  (spend token_sha256 host token db)
                ≡ ok (out, db') =
              sym (known ∙ rw c) ∙ h in
            ground (
              arith,
              join_session-Member token_sha256 host token uid (use_once i)
                  (spend token_sha256 host token db) joined,
              join_session-invite host (use_once i) caller (spend token_sha256 host token db)
                  joined,
            )
        | inr c ↦
            let refused : diagnose host.now i caller db ≡ ok (out, db') = sym (known ∙ rw c) ∙ h in
            ground (
              arith,
              diagnose-Member token_sha256 host token uid i db v refused,
              diagnose_ok token_sha256 host token i caller db refused,
            )
      ]

  module _ (host : Host) (user : User) (token : ℕ) (db : Database) where
    -- The end of a redemption, in the session of the invite.
    abbrev enter : ℕ → Option Role → Outcome RedeemResult
    enter sid (some role) =
        answered (ok (record { session_id = sid; role = role; issued_token = none })) db
    enter sid none =
        redeemed false db
          (redeem_invite token_sha256 host token (RedeemIdentity.existing user.id) db)

    reached :
        (r : RedeemResult)
        → UniqueSessions db
        → (redeem_existing token_sha256 host user token db).answer ≡ ok r
        → (i : InviteToken) × (preview token_sha256 token db ≡ ok i)
          × (strays user.scoped_session_id i.session_id ≡ false)
          × (redeem_existing token_sha256 host user token db
              ≡ enter i.session_id (find_active_participant_role i.session_id user.id db))
    unfolding redeem_existing find_invite
    reached r v h = elim (Option-cases (find (invite_is (token_sha256 token)) db.invite_tokens)) [
      | inl absent ↦ ground (arith, absent)
      | inr (j, found) ↦ elim (Bool-cases (strays user.scoped_session_id j.session_id)) [
        | inl out ↦ ground (arith, found, out)
        | inr pinned ↦ elim (Result-cases (preview token_sha256 token db)) [
          | inl (e, dead) ↦ ground (arith, found, pinned, dead)
          | inr (i, live) ↦
              let same : i ≡ j = ground (arith, preview_ok token db i v live, found) in
              (
                i,
                live,
                rw same pinned,
                elim (Option-cases (find_active_participant_role i.session_id user.id db)) [
                  | inl outside ↦ ground (arith, found, pinned, live, outside)
                  | inr (role, inside) ↦ ground (arith, found, pinned, live, inside)
                ],
              )
        ]
      ]
    ]

    enter-member :
        (i : InviteToken) (r : RedeemResult)
        → UniqueInvites db
        → UniqueSessions db
        → find (invite_is (token_sha256 token)) db.invite_tokens ≡ some i
        → (enter i.session_id (find_active_participant_role i.session_id user.id db)).answer ≡ ok r
        → (r.session_id ≡ i.session_id)
          × (present i.session_id user.id
                (enter i.session_id (find_active_participant_role i.session_id user.id db)).database
              ≡ true)
    enter-member i r u v found h =
        elim (Option-cases (find_active_participant_role i.session_id user.id db)) [
          | inr (role, inside) ↦
              ground (arith, inside, role-present i.session_id user.id db role inside)
          | inl outside ↦
              elim (Result-cases
                (redeem_invite token_sha256 host token (RedeemIdentity.existing user.id) db)) [
                  | inl (e, bad) ↦ ground (arith, outside, bad)
                  | inr ((out, db'), done) ↦ ground (
                    arith,
                    outside,
                    done,
                    redeem_invite-member host token user.id db i u v found done,
                  )
                ]
        ]

    -- What a redemption that is granted shows.
    abbrev pub Entered : RedeemResult → Outcome RedeemResult → Type 0
    Entered r out =
        (i : InviteToken) × (find (invite_is (token_sha256 token)) db.invite_tokens ≡ some i)
        × (r.session_id ≡ i.session_id)
        × (session_alive i.session_id db.sessions ≡ true)
        × (strays user.scoped_session_id i.session_id ≡ false)
        × (present i.session_id user.id out.database ≡ true)
        × ((role : Role)
            → find_active_participant_role i.session_id user.id db ≡ some role
            → out ≡ record {
              answer = ok (record { session_id = i.session_id; role = role; issued_token = none });
              database = db;
              audit = [];
            })

    -- On a database with unique invite digests and session ids, a redemption by a caller with an
    -- account that is granted is for the session of an invite with that token, which is active; a
    -- guest's scope is that session; and afterwards the caller is present in it. For a caller who
    -- has a role there already, it answers that role and changes nothing.
    pub redeem_existing-granted :
        (r : RedeemResult)
        → UniqueInvites db
        → UniqueSessions db
        → (redeem_existing token_sha256 host user token db).answer ≡ ok r
        → Entered r (redeem_existing token_sha256 host user token db)
    redeem_existing-granted r u v h =
        let (i, live, pinned, same) = reached r v h in
        let (found, alive_now) = preview_ok token db i v live in
        let (right, inside) = enter-member i r u v found (sym (ap answer_of same) ∙ h) in
        (i, found, right, alive_now, pinned, rw same inside, λ role known. same ∙ rw known refl)
