-- ===== src/Repositories/RefreshTokens.antt =====
-- app/repositories/refresh_token.py
use fastapi_url_shortener.Base.{String, Bool, true, not, ◌&&◌, Option, ltb, ◌==◌, nat_eq, string_eq}
use fastapi_url_shortener.Core.Action.{Action, modify}
use fastapi_url_shortener.Models.{Uuid, DateTime, RefreshToken}
use fastapi_url_shortener.Postgres.{Postgres}
use fastapi_url_shortener.Repositories.BaseRepository as Base

-- `is_revoked=True`, at a time that `onupdate` writes to `updated_at`
abbrev pub revoked : DateTime → RefreshToken → RefreshToken
revoked now t = record t { updated_at = now; is_revoked = true }

-- the conditions of `get_by_hash`
unfoldable pub is_valid_for : String → DateTime → RefreshToken → Bool
is_valid_for token_hash now t =
    t.token_hash == token_hash && not t.is_revoked && ltb now t.expires_at

module _ ⦃pg : Postgres⦄ where
  unfoldable pub create : RefreshToken → Action pg.Db RefreshToken
  unfolding Base.create
  create = Base.create pg.refresh_tokens

  unfoldable pub update : RefreshToken → (RefreshToken → RefreshToken) → Action pg.Db RefreshToken
  unfolding Base.update
  update = Base.update pg.refresh_tokens (λ t. t.id)

  unfoldable pub get_by_hash : String → DateTime → Action pg.Db (Option RefreshToken)
  unfolding Base.find_one
  get_by_hash token_hash now = Base.find_one pg.refresh_tokens (is_valid_for token_hash now)

  unfoldable pub revoke_all_for_user : Uuid → DateTime → Action pg.Db Unit
  revoke_all_for_user user_id now =
      modify (pg.refresh_tokens.update (λ t. t.user_id == user_id) (revoked now))
