-- ===== src/Control/Invites/Ttl.antt =====
-- The lifetime of the invites that invite_service.rs mints, and a request that it does not survive.
use telepair.Base.{
  ℕ, ◌+◌, ◌*◌, ◌≤◌, ◌<◌, ◌≡◌, refl, ◌⊎◌, false, Option, none, some, arith, Option-cases, inl, inr,
  leb, if◌then◌else◌,
}
use telepair.Core.Failure.{Message, ok, Result-cases}
use telepair.Core.Role.{Role, role_eq}
use telepair.Core.Records.{Session, User}
use telepair.Storage.{Database, Host}
use telepair.Storage.Invites.{create_invite, find_invite}
use telepair.Base.Rows.{find}
use telepair.Control.Audit.{Outcome}
use telepair.Control.Sessions.{require_active_owned}
use telepair.Control.Invites.{
  CreateInviteParams, CreateInviteResult, Expiry, resolve_expiry, create, mint, max_ttl,
}

-- An invite that ends, ends within the longest lifetime; one that does not was asked for so.
abbrev pub Lifetime : ℕ → CreateInviteParams → Option ℕ → Type 0
Lifetime now params (some at) = (now < at) × (at ≤ now + 7 * 24 * 60 * 60)
Lifetime now params none =
    (params.expires_at ≡ none)
    × (params.expires_in_secs ≡ none)
    × (params.expires_in_minutes ≡ none)

resolve_expiry-Lifetime :
    (duration_max now : ℕ) (params : CreateInviteParams) (expires_at : Option ℕ)
    → resolve_expiry duration_max now params ≡ Expiry.resolved expires_at
    → Lifetime now params expires_at
unfolding resolve_expiry
resolve_expiry-Lifetime duration_max now params none h = elim (Option-cases params.expires_at) [
  | inr (at, asked) ↦ ground (arith, asked)
  | inl e ↦ elim (Option-cases params.expires_in_secs) [
    | inr (secs, asked) ↦ ground (arith, e, asked)
    | inl f ↦ elim (Option-cases params.expires_in_minutes) [
      | inr (minutes, asked) ↦ ground (arith, e, f, asked)
      | inl g ↦ (e, f, g)
    ]
  ]
]
resolve_expiry-Lifetime duration_max now params (some at) h =
    elim (Option-cases params.expires_at) [
      | inr (wanted, asked) ↦ ground (arith, asked)
      | inl e ↦ elim (Option-cases params.expires_in_secs) [
        | inr (secs, asked) ↦ ground (arith, e, asked)
        | inl f ↦ elim (Option-cases params.expires_in_minutes) [
          | inr (minutes, asked) ↦ ground (arith, e, f, asked)
          | inl g ↦ ground (arith, e, f, g)
        ]
      ]
    ]

Expiry-cases :
    (x : Expiry)
    → ((m : Message) × (x ≡ Expiry.refused m))
      ⊎ (x ≡ Expiry.panicked)
      ⊎ ((at : Option ℕ) × (x ≡ Expiry.resolved at))
Expiry-cases (Expiry.refused m) = inl (m, refl)
Expiry-cases Expiry.panicked = inr (inl refl)
Expiry-cases (Expiry.resolved at) = inr (inr (at, refl))

module _ (token_sha256 : ℕ → ℕ) (duration_max : ℕ) (host : Host) (owner : User) (sid : ℕ)
    (params : CreateInviteParams) (db : Database) where
  -- The token of the answer is of an unused invite with what the answer says.
  abbrev pub Minted : CreateInviteResult → Outcome CreateInviteResult → Type 0
  Minted r out =
      find_invite token_sha256 r.token out.database
      ≡ ok (record {
        token_sha256 = token_sha256 r.token;
        session_id = sid;
        role = r.role;
        max_uses = r.max_uses;
        used_count = 0;
        expires_at = r.expires_at;
        created_at = some host.now;
      })

  mint_fields :
      (expires_at : Option ℕ) (r : CreateInviteResult)
      → (mint token_sha256 host owner sid params expires_at db).answer ≡ ok r
      → (r.role ≡ params.role)
        × (r.max_uses ≡ params.max_uses)
        × (r.expires_at ≡ expires_at)
        × Minted r (mint token_sha256 host owner sid params expires_at db)
  unfolding mint create_invite find_invite find
  mint_fields expires_at r h = ground arith

  life :
      (s : Session)
      → require_active_owned owner sid db ≡ ok s
      → (at : Option ℕ) → resolve_expiry duration_max host.now params ≡ Expiry.resolved at
      → (out : Outcome CreateInviteResult) (r : CreateInviteResult)
      → create token_sha256 duration_max host owner sid params db ≡ some out
      → out.answer ≡ ok r
      → Lifetime host.now params r.expires_at
  unfolding create
  life s allowed at found out r h done =
      let same : r.expires_at ≡ at = ground (arith, mint_fields at r) in
      rw same (resolve_expiry-Lifetime duration_max host.now params at found)

  -- Every invite that is minted is for an active session, by its owner; it is not for the owner's
  -- role, it has from 1 to 100 uses, and it expires in the future, at most a week from now, unless
  -- the request names no expiry at all; and the token of the answer is of an invite that is stored
  -- with just this session, role, number of uses and expiry, and that is not used yet.
  pub create_lifetimes :
      (out : Outcome CreateInviteResult) (r : CreateInviteResult)
      → create token_sha256 duration_max host owner sid params db ≡ some out
      → out.answer ≡ ok r
      → (s : Session) × (require_active_owned owner sid db ≡ ok s)
        × (role_eq r.role Role.owner ≡ false)
        × (1 ≤ r.max_uses)
        × (r.max_uses ≤ 100)
        × Lifetime host.now params r.expires_at
        × Minted r out
  unfolding create
  create_lifetimes out r h done = elim (Result-cases (require_active_owned owner sid db)) [
    | inl (e, refused) ↦ ground (arith, refused)
    | inr (s, allowed) ↦ elim (Expiry-cases (resolve_expiry duration_max host.now params)) [
      | inl (m, bad) ↦ ground (arith, allowed, bad)
      | inr (inl bad) ↦ ground (arith, allowed, bad)
      | inr (inr (at, found)) ↦ (
        s,
        allowed,
        ground (arith, allowed, found, mint_fields at r),
        ground (arith, allowed, found, mint_fields at r),
        ground (arith, allowed, found, mint_fields at r),
        life s allowed at found out r h done,
        ground (arith, allowed, found, mint_fields at r),
      )
    ]
  ]

  -- A number of seconds that `Duration::seconds` takes is honoured up to a week, and a greater one
  -- is cut to a week, but one that it does not take panics the request.
  panics :
      (s : Session) (secs : ℕ)
      → require_active_owned owner sid db ≡ ok s
      → role_eq params.role Role.owner ≡ false
      → 1 ≤ params.max_uses
      → params.max_uses ≤ 100
      → params.expires_at ≡ none
      → params.expires_in_secs ≡ some secs
      → 1 ≤ secs
      → (secs ≤ duration_max
          → create token_sha256 duration_max host owner sid params db
            ≡ some (
                mint token_sha256 host owner sid params
                  (some (host.now + (if leb secs max_ttl then secs else max_ttl)))
                  db))
        × (duration_max < secs → create token_sha256 duration_max host owner sid params db ≡ none)
  unfolding create resolve_expiry
  panics s secs allowed role few many e f one =
      (λ fits. ground (arith, allowed, role, e, f), λ over. ground (arith, allowed, role, e, f))
