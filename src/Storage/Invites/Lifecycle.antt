-- ===== src/Storage/Invites/Lifecycle.antt =====
-- An invite from its creation to its revocation.
use telepair.Base.{ℕ, ◌≡◌, Option, arith}
use telepair.Base.Rows.{find, find-delete_where}
use telepair.Core.Failure.{ok, err}
use telepair.Core.Role.{Role}
use telepair.Core.Records.{InviteToken, RedeemIdentity}
use telepair.Storage.Db.{Database, Host}
use telepair.Storage.Invites.{
  invite_is, invalid_token, create_invite, find_invite, revoke_invite, redeem_invite,
}
use telepair.Storage.Invites.Redeem.{redeem_unknown}

module _ (token_sha256 : ℕ → ℕ) (host later : Host) (sid max_uses : ℕ) (role : Role)
    (expires_at : Option ℕ) (db : Database) where
  -- When an invite is created, the token returned finds the invite it made, which is unused and
  -- for the given session and role. Once that invite is revoked, whoever redeems the token is
  -- refused.
  pub create_revoke_redeem :
      {i : InviteToken} {raw : ℕ} {db' : Database} (identity : RedeemIdentity)
      → create_invite token_sha256 host sid role max_uses expires_at db ≡ ok (i, raw, db')
      → (find_invite token_sha256 raw db' ≡ ok i)
        × (i.used_count ≡ 0)
        × (i.session_id ≡ sid)
        × (i.role ≡ role)
        × (redeem_invite token_sha256 later raw identity (revoke_invite i.token_sha256 db')
            ≡ err invalid_token)
  unfolding create_invite find_invite find revoke_invite
  create_revoke_redeem {i} {raw} {db'} identity h =
      let refused =
        redeem_unknown token_sha256 later raw identity (revoke_invite (token_sha256 raw) db')
          (find-delete_where (invite_is (token_sha256 raw)) db'.invite_tokens) in
      ground (arith, refused)
