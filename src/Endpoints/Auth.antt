-- ===== src/Endpoints/Auth.antt =====
-- app/api/v1/endpoints/auth.py, with the checks of app/schemas/auth.py. What `EmailStr` accepts and
-- the characters that `isupper` and `isdigit` accept are parameters.
use Prim.Native.Char.{Char}
use Prim.Native.String.{count}
use fastapi_url_shortener.Base.{
  ℕ, String, Bool, false, ◌&&◌, ◌||◌, Option, none, some, leb, ◌==◌, string_eq, if◌then◌else◌,
}
use fastapi_url_shortener.Core.Action.{Action, pure, ◌>>=◌, ◌>>◌}
use fastapi_url_shortener.Core.Security.{Crypto}
use fastapi_url_shortener.Core.Settings.{Settings}
use fastapi_url_shortener.Core.World.{World, on_db, on_store}
use fastapi_url_shortener.Models.{Uuid, DateTime, User, fits}
use fastapi_url_shortener.Postgres.{Postgres}
use fastapi_url_shortener.Redis.{Redis}
use fastapi_url_shortener.Formats.{Formats}
use fastapi_url_shortener.Dependencies.{get_current_user}
use fastapi_url_shortener.Endpoints.{in_session, limited}
use fastapi_url_shortener.Redirect.Request.{Request, get_client_ip}
use fastapi_url_shortener.AuthService as Service
use fastapi_url_shortener.AuthService.{RegisterRequest, LoginRequest, TokenResponse}

pub record TextClasses : Type 0 where
  -- EmailStr
  pub is_email : String → Bool
  -- str.isupper, str.isdigit of one character
  pub is_upper : Char → Bool
  pub is_digit : Char → Bool

-- `any(p(c) for c in v)`
abbrev pub any_char : (Char → Bool) → String → Bool
any_char p String.[] = false
any_char p (String.◌∷◌ c s) = p c || any_char p s

-- What `RegisterRequest` accepts, `password_strength` included.
unfoldable pub is_valid_register : TextClasses → RegisterRequest → Bool
is_valid_register t d =
    t.is_email d.email
    && leb 8 (count d.password)
    && leb (count d.password) 128
    && any_char t.is_upper d.password
    && any_char t.is_digit d.password
    && fits 255 d.full_name

pub record RefreshRequest : Type 0 where
  pub refresh_token : String

pub record UserResponse : Type 0 where
  pub id : Uuid
  pub email : String
  pub full_name : Option String
  pub role : String
  pub is_active : Bool
  pub is_verified : Bool

-- `UserResponse.model_validate(user)`
unfoldable pub user_response : User → UserResponse
user_response u = record {
  id = u.id;
  email = u.email;
  full_name = u.full_name;
  role = u.role;
  is_active = u.is_active;
  is_verified = u.is_verified;
}

-- `ip or "anon"`
abbrev pub ip_or_anon : Option String → String
ip_or_anon none = "anon"
ip_or_anon (some ip) = if ip == "" then "anon" else ip

module _ ⦃pg : Postgres⦄ ⦃r : Redis⦄ ⦃f : Formats⦄ ⦃y : Crypto⦄ (settings : Settings)
    (now : DateTime) where
  -- `register`
  unfoldable pub register_user :
      RegisterRequest → Request → String → Uuid → ℕ → Action (World pg r) UserResponse
  register_user d q req_id id salt = in_session (do
    on_store (
        limited (ip_or_anon (get_client_ip q)) 10 3600 "register" "Too many registration attempts"
          now req_id)
    u ← on_db (Service.register settings d id salt now)
    pure (user_response u))

  -- `login`
  unfoldable pub login_user :
      LoginRequest → Request → String → Uuid → Action (World pg r) TokenResponse
  login_user d q req_id id = in_session (do
    on_store
        (limited (ip_or_anon (get_client_ip q)) 20 300 "login" "Too many login attempts" now req_id)
    on_db (Service.login settings d (get_client_ip q) q.user_agent id now))

  -- `refresh_token`
  unfoldable pub refresh_token : RefreshRequest → Uuid → Action (World pg r) TokenResponse
  refresh_token d id = in_session (on_db (Service.refresh settings d.refresh_token id now))

  -- `logout`
  unfoldable pub logout_user : RefreshRequest → Action (World pg r) Unit
  logout_user d = in_session (on_db (Service.logout settings d.refresh_token now))

  -- `me`
  unfoldable pub me : Option String → Action (World pg r) UserResponse
  me credentials =
      in_session (do u ← on_db (get_current_user settings now credentials); pure (user_response u))
