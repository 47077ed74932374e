-- ===== src/Storage/Accounts/Passwords.antt =====
-- A change of password, and the bearer tokens that it leaves valid.
use telepair.Base.{
  ℕ, ◌&&◌, true, false, not, ◌≡◌, ◌≢◌, refl, ◌∙◌, Option, none, some, List, [], ◌∷◌, String,
  if◌then◌else◌, ◌==◌, map_option, arith, ap, Bool-cases, inl, inr, sym,
}
use telepair.Base.Rows.{find, update_where, exists_where}
use telepair.Base.Unique.{Unique, Unique-update_where}
use telepair.Core.Failure.{ok, err}
use telepair.Storage.Db.{Database, Host, UserRow, user_id_is}
use telepair.Storage.Accounts.{
  token_is, with_password, with_token, update_password_hash, validate_token, rotate_token,
  change_password_and_rotate_token,
}

abbrev pub token_key : UserRow → ℕ
token_key u = u.token_sha256

abbrev pub UniqueTokens : Database → Type 0
UniqueTokens db = Unique token_key db.users

abbrev id_of : UserRow → ℕ
id_of u = u.id

-- The account that a token digest stands for.
abbrev owner : ℕ → List UserRow → Option ℕ
owner sha us = map_option id_of (find (token_is sha) us)

abbrev pub revoked : ℕ → Option ℕ → Option ℕ
revoked id none = none
revoked id (some v) = if v == id then none else some v

owner-with_password :
    (hash : String) (now id sha : ℕ) (us : List UserRow)
    → owner sha (update_where (user_id_is id) (with_password hash now) us) ≡ owner sha us
unfolding find update_where
owner-with_password hash now id sha [] = refl
owner-with_password hash now id sha (u ∷ us) =
    ground (arith, owner-with_password hash now id sha us)

owner_self :
    (now id sha : ℕ) (us : List UserRow)
    → exists_where (user_id_is id) us ≡ true
    → exists_where (λ u. token_is sha u && not (user_id_is id u)) us ≡ false
    → owner sha (update_where (user_id_is id) (with_token sha now) us) ≡ some id
unfolding find update_where
owner_self now id sha [] h g = cc
owner_self now id sha (u ∷ us) h g = ground (arith, owner_self now id sha us)

owner_absent :
    (now id sha new : ℕ) (us : List UserRow)
    → sha ≢ new
    → find (token_is sha) us ≡ none
    → find (token_is sha) (update_where (user_id_is id) (with_token new now) us) ≡ none
unfolding find update_where
owner_absent now id sha new [] apart h = refl
owner_absent now id sha new (u ∷ us) apart h = ground (arith, owner_absent now id sha new us apart)

owner-revoked :
    (now id sha new : ℕ) (us : List UserRow)
    → sha ≢ new
    → Unique token_key us
    → owner sha (update_where (user_id_is id) (with_token new now) us) ≡ revoked id (owner sha us)
unfolding find update_where
owner-revoked now id sha new [] apart h = refl
owner-revoked now id sha new (u ∷ us) apart h =
    ground (arith, owner_absent now id sha new us apart, owner-revoked now id sha new us apart h.1)

exists-with_password :
    (hash : String) (now id : ℕ) (us : List UserRow)
    → exists_where (user_id_is id) (update_where (user_id_is id) (with_password hash now) us)
      ≡ exists_where (user_id_is id) us
unfolding find update_where
exists-with_password hash now id [] = refl
exists-with_password hash now id (u ∷ us) = ground (arith, exists-with_password hash now id us)

absent-with_password :
    (hash : String) (now id sha : ℕ) (us : List UserRow)
    → find (token_is sha) us ≡ none
    → find (token_is sha) (update_where (user_id_is id) (with_password hash now) us) ≡ none
unfolding find update_where
absent-with_password hash now id sha [] h = refl
absent-with_password hash now id sha (u ∷ us) h =
    ground (arith, absent-with_password hash now id sha us)

Unique-with_password :
    (hash : String) (now id : ℕ) (us : List UserRow)
    → Unique token_key us
    → Unique token_key (update_where (user_id_is id) (with_password hash now) us)
Unique-with_password hash now id us h =
    Unique-update_where token_key (user_id_is id) (with_password hash now) us (λ r. refl) h

module _ (token_sha256 : ℕ → ℕ) where
  -- Whose requests a bearer token authenticates.
  abbrev pub holder : ℕ → Database → Option ℕ
  holder token db = elim (validate_token token_sha256 token db) [ ok u ↦ some u.id | err e ↦ none ]

  holder-eq-owner :
      (token : ℕ) (db : Database) → holder token db ≡ owner (token_sha256 token) db.users
  unfolding validate_token
  holder-eq-owner token db = ground arith

  module _ (host : Host) (id : ℕ) (db : Database) {db' : Database} where
    rotate_token_holders :
        UniqueTokens db
        → exists_where (user_id_is id) db.users ≡ true
        → rotate_token token_sha256 host id db ≡ ok db'
        → (owner (token_sha256 host.raw_token) db'.users ≡ some id)
          × ((sha : ℕ)
              → sha ≢ token_sha256 host.raw_token
              → owner sha db'.users ≡ revoked id (owner sha db.users))
    unfolding rotate_token
    rotate_token_holders u here h =
        let new = token_sha256 host.raw_token in
        elim (Bool-cases
          (exists_where (λ (r : UserRow). token_is new r && not (user_id_is id r)) db.users)) [
            | inl taken ↦ ground arith
            | inr free ↦
                let e : db' ≡ record db {
                  users = update_where (user_id_is id) (with_token new host.now) db.users;
                } =
                  ground arith in
                rw e (
                  owner_self host.now id new db.users here free,
                  λ sha apart. owner-revoked host.now id sha new db.users apart u,
                )
          ]

abbrev rehashed : Host → ℕ → String → Database → Database
rehashed host id hash db = record db {
  users = update_where (user_id_is id) (with_password hash host.now) db.users;
}

module _ (token_sha256 : ℕ → ℕ) (host : Host) (id : ℕ) (hash : String) (db : Database) {raw : ℕ}
    {db' : Database} where
  change_password_inv :
      change_password_and_rotate_token token_sha256 host id hash db ≡ ok (raw, db')
      → (exists_where (user_id_is id) db.users ≡ true)
        × (raw ≡ host.raw_token)
        × (rotate_token token_sha256 host id (rehashed host id hash db) ≡ ok db')
  unfolding change_password_and_rotate_token update_password_hash
  change_password_inv h = ground arith

  -- On a database with unique token digests, a change of password that succeeds returns a token
  -- that authenticates the account. No token of another digest authenticates it any more, and the
  -- tokens of all other accounts authenticate whom they did before.
  pub change_password_rotates :
      UniqueTokens db
      → change_password_and_rotate_token token_sha256 host id hash db ≡ ok (raw, db')
      → (holder token_sha256 raw db' ≡ some id)
        × ((token : ℕ)
            → token_sha256 token ≢ token_sha256 raw
            → holder token_sha256 token db' ≡ revoked id (holder token_sha256 token db))
  change_password_rotates u h =
      let (here, drawn, rotated) = change_password_inv h in
      let (new, rest) =
        rotate_token_holders token_sha256 host id (rehashed host id hash db)
          (Unique-with_password hash host.now id db.users u)
          (exists-with_password hash host.now id db.users ∙ here) rotated in
      (
        holder-eq-owner token_sha256 raw db' ∙ rw drawn new,
        λ token apart.
            holder-eq-owner token_sha256 token db'
            ∙ rest (token_sha256 token) (rw (← drawn) apart)
            ∙ ap (revoked id) (
                owner-with_password hash host.now id (token_sha256 token) db.users
                ∙ sym (holder-eq-owner token_sha256 token db)),
      )
