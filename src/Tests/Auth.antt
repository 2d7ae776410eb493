-- ===== src/Tests/Auth.antt =====
-- The refresh tokens at concrete inputs.
use fastapi_url_shortener.Base.{
  ◌≡◌, refl, arith, none, some, [], ◌∷◌, false, ◌==◌, string_eq, if◌then◌else◌,
}
use fastapi_url_shortener.Core.Action.{ok, err}
use fastapi_url_shortener.Core.Errors.{authentication_error}
use fastapi_url_shortener.Core.Security.{Crypto, create_refresh_token, decode_token}
use fastapi_url_shortener.Core.Settings.{default_settings}
use fastapi_url_shortener.Formats.Memory.{memory_formats}
use fastapi_url_shortener.Models.{User, RefreshToken, admits_refresh_token}
use fastapi_url_shortener.Postgres.Memory.{MemoryDb, memory, memory-IsPostgres}
use fastapi_url_shortener.Repositories.BaseRepository as Base
use fastapi_url_shortener.Repositories.RefreshTokens as Repo
use fastapi_url_shortener.Repositories.Query.{scalar_one_or_none}
use fastapi_url_shortener.Repositories.RefreshTokens.{is_valid_for}
use fastapi_url_shortener.AuthService.{
  LoginRequest, TokenResponse, checked, login, refresh, logout, issued,
}
use fastapi_url_shortener.AuthService.Login.{IsSignedIn, login-IsSignedIn}
use fastapi_url_shortener.Repositories.Users as Users
use fastapi_url_shortener.AuthService.Stored.{IsUnique}
use fastapi_url_shortener.AuthService.Sessions.{logout-refresh, refresh-twice}
use fastapi_url_shortener.Tests.Data.{ada}

-- Tokens that are told apart by their kind: the first refresh token reads "old", and every token
-- that is made is "new".
instance abbrev two_tokens : Crypto
two_tokens = record {
  encode = λ c key. "new";
  decode = λ now token key.
      if token == "old"
      then some (record { sub = some "1"; exp = 9; type = some "refresh" })
      else none;
  hash = λ salt password. password;
  verify = λ password hashed. password == hashed;
}

abbrev old_token : RefreshToken
old_token = record {
  id = 5;
  created_at = 1;
  updated_at = 1;
  user_id = 1;
  token_hash = "old";
  expires_at = 9;
  is_revoked = false;
  user_agent = none;
  ip_address = none;
}

abbrev signed_in : MemoryDb
signed_in = record {
  users = ada ∷ [];
  short_urls = [];
  refresh_tokens = old_token ∷ [];
  click_events = [];
}

signed_in-IsUnique : IsUnique signed_in.refresh_tokens
signed_in-IsUnique h = ground arith

logout-refresh_example :
    ((logout default_settings "old" 3 signed_in).0 ≡ ok tt)
    × (refresh default_settings "old" 6 4 (logout default_settings "old" 3 signed_in).1 ≡ (
      err (authentication_error "Invalid or expired refresh token"),
      (logout default_settings "old" 3 signed_in).1,
    ))
logout-refresh_example =
    logout-refresh memory-IsPostgres default_settings "old" signed_in 3 4 6 signed_in-IsUnique
      (omega arith)

refreshed : (refresh default_settings "old" 6 3 signed_in).0 ≡ ok (issued default_settings 3 "1")
unfolding refresh decode_token is_valid_for Repo.get_by_hash Repo.update Repo.create Base.find_one
    Base.update Base.create admits_refresh_token create_refresh_token scalar_one_or_none
refreshed = refl

refresh-twice_example :
    refresh default_settings "old" 7 4 (refresh default_settings "old" 6 3 signed_in).1 ≡ (
      err (authentication_error "Invalid or expired refresh token"),
      (refresh default_settings "old" 6 3 signed_in).1,
    )
refresh-twice_example =
    refresh-twice memory-IsPostgres default_settings "old" signed_in 6 7 3 4
      (issued default_settings 3 "1") signed_in-IsUnique refreshed

abbrev ada_login : LoginRequest
ada_login = record { email = "ada@example.com"; password = "secret" }

abbrev tokens_of_ada : TokenResponse
tokens_of_ada = issued default_settings 3 (memory_formats.uuid_str 1)

logged_in : (login default_settings ada_login none none 6 3 signed_in).0 ≡ ok tokens_of_ada
unfolding login checked Users.get_by_email Repo.create Base.find_one Base.create
    admits_refresh_token create_refresh_token scalar_one_or_none
logged_in = refl

login-IsSignedIn_example :
    (u : User) × IsSignedIn memory-IsPostgres default_settings ada_login none none 6 3 signed_in
      tokens_of_ada u
login-IsSignedIn_example =
    login-IsSignedIn memory-IsPostgres default_settings ada_login none none 6 3 signed_in
      tokens_of_ada logged_in
