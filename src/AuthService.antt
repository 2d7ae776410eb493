-- ===== src/AuthService.antt =====
-- app/services/auth.py, with the schemas of app/schemas/auth.py.
pub mod Stored
pub mod Sessions
pub mod Login
pub mod Collision
use fastapi_url_shortener.Base.{
  ℕ, ◌+◌, ◌*◌, String, Bool, true, false, not, Option, none, some, ◌==◌, string_eq, option_eq,
  if◌then◌else◌,
}
use fastapi_url_shortener.Core.Errors.{Error, authentication_error, conflict_error, key_error}
use fastapi_url_shortener.Core.Action.{
  Result, ok, err, Action, pure, raise, lift, or_raise, raise_if, resume, ◌>>=◌, ◌>>◌,
}
use fastapi_url_shortener.Core.Security.{
  Crypto, Claims, days, create_access_token, create_refresh_token, decode_token,
}
use fastapi_url_shortener.Core.Settings.{Settings}
use fastapi_url_shortener.Formats.{Formats}
use fastapi_url_shortener.Models.{Uuid, DateTime, User, RefreshToken}
use fastapi_url_shortener.Postgres.{Postgres}
use fastapi_url_shortener.Repositories.RefreshTokens as Tokens
use fastapi_url_shortener.Repositories.RefreshTokens.{revoked}
use fastapi_url_shortener.Repositories.Users as Users

pub record RegisterRequest : Type 0 where
  pub email : String
  pub password : String
  pub full_name : Option String

pub record LoginRequest : Type 0 where
  pub email : String
  pub password : String

pub record TokenResponse : Type 0 where
  pub access_token : String
  pub refresh_token : String
  pub expires_in : ℕ

-- A user, with the defaults of the columns.
abbrev pub new_user : Uuid → DateTime → RegisterRequest → String → User
new_user id now d hashed_password = record {
  id = id;
  created_at = now;
  updated_at = now;
  email = d.email;
  hashed_password = hashed_password;
  full_name = d.full_name;
  role = "user";
  is_active = true;
  is_verified = false;
}

module _ ⦃pg : Postgres⦄ ⦃f : Formats⦄ ⦃y : Crypto⦄ (settings : Settings) where
  -- `register`, with the fresh id and the salt of the hash
  unfoldable pub register : RegisterRequest → Uuid → ℕ → DateTime → Action pg.Db User
  register d id salt now = do
    taken ← Users.email_exists d.email
    raise_if taken (conflict_error "Email already registered")
    Users.create (new_user id now d (y.hash salt d.password))

  -- The stored form of a refresh token.
  abbrev pub new_token :
      Uuid → DateTime → Uuid → String → Option String → Option String → RefreshToken
  new_token id now user_id token ip user_agent = record {
    id = id;
    created_at = now;
    updated_at = now;
    user_id = user_id;
    token_hash = f.sha256 token;
    expires_at = now + days settings.refresh_token_expire_days;
    is_revoked = false;
    user_agent = user_agent;
    ip_address = ip;
  }

  -- the pair of tokens for a subject
  abbrev pub issued : DateTime → String → TokenResponse
  issued now subject = record {
    access_token = create_access_token settings now subject none;
    refresh_token = create_refresh_token settings now subject none;
    expires_in = settings.access_token_expire_minutes * 60;
  }

  -- `not user or not verify_password(…)`
  unfoldable pub checked : String → Option User → Action pg.Db User
  checked password none = raise (authentication_error "Invalid email or password")
  checked password (some u) =
      raise_if (not (y.verify password u.hashed_password))
        (authentication_error "Invalid email or password")
      >> pure u

  -- `login`, with the fresh id of the token's row
  unfoldable pub login :
      LoginRequest → Option String → Option String → Uuid → DateTime → Action pg.Db TokenResponse
  login d ip user_agent id now = do
    u ← checked d.password (← Users.get_by_email d.email)
    raise_if (not u.is_active) (authentication_error "Account is deactivated")
    Tokens.create (new_token id now u.id (issued now (f.uuid_str u.id)).refresh_token ip user_agent)
    pure (issued now (f.uuid_str u.id))

  -- `except ValueError: raise AuthenticationError("Invalid refresh token")`
  abbrev pub decoded : Result Claims → Action pg.Db Claims
  decoded (ok c) = pure c
  decoded (err e) = raise (authentication_error "Invalid refresh token")

  -- `refresh`
  unfoldable pub refresh : String → Uuid → DateTime → Action pg.Db TokenResponse
  refresh raw_refresh_token id now = do
    stored ←
        or_raise (← Tokens.get_by_hash (f.sha256 raw_refresh_token) now)
          (authentication_error "Invalid or expired refresh token")
    payload ← decoded (decode_token settings now raw_refresh_token)
    raise_if (not (payload.type == some "refresh")) (authentication_error "Invalid token type")
    Tokens.update stored (revoked now)
    user_id ← or_raise payload.sub key_error
    Tokens.create (new_token id now stored.user_id (issued now user_id).refresh_token none none)
    pure (issued now user_id)

  -- `if stored: await self._tokens.update(stored, is_revoked=True)`
  abbrev pub revoke_found : DateTime → Option RefreshToken → Action pg.Db Unit
  revoke_found now none = pure tt
  revoke_found now (some stored) = Tokens.update stored (revoked now) >> pure tt

  -- `logout`
  unfoldable pub logout : String → DateTime → Action pg.Db Unit
  logout raw_refresh_token now = do
    stored ← Tokens.get_by_hash (f.sha256 raw_refresh_token) now
    revoke_found now stored
