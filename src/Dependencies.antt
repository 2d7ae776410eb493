-- ===== src/Dependencies.antt =====
-- app/dependencies/auth.py: who makes a request. The credentials are the token of the
-- `Authorization: Bearer` header, if there is one.
pub mod Genuine
pub mod Tokens
use fastapi_url_shortener.Base.{
  String, Bool, true, false, not, Option, none, some, List, [], ◌∷◌, map, ◌==◌, string_eq,
  option_eq, if◌then◌else◌, contains,
}
use fastapi_url_shortener.Core.Errors.{
  Error, authentication_error, authorization_error, value_error,
}
use fastapi_url_shortener.Core.Action.{
  Result, ok, err, Action, pure, raise, or_raise, raise_if, resume, try_except, ◌>>=◌, ◌>>◌,
}
use fastapi_url_shortener.Core.Security.{Crypto, Claims, decode_token}
use fastapi_url_shortener.Core.Settings.{Settings}
use fastapi_url_shortener.Formats.{Formats}
use fastapi_url_shortener.Models.{Uuid, DateTime, UserRole, user, admin, User}
use fastapi_url_shortener.Postgres.{Postgres}
use fastapi_url_shortener.Repositories.Users as Users

-- `if not text` for a text that may be None
abbrev pub filled : Option String → Option String
filled none = none
filled (some s) = if s == "" then none else some s

-- `r.value`
abbrev pub role_value : UserRole → String
role_value user = "user"
role_value admin = "admin"

module _ ⦃pg : Postgres⦄ where
  -- `except ValueError: raise AuthenticationError("Invalid or expired token")`
  abbrev pub payload_of : Result Claims → Action pg.Db Claims
  payload_of (ok c) = pure c
  payload_of (err e) = raise (authentication_error "Invalid or expired token")

  -- `if not user or not user.is_active`
  abbrev pub active : Option User → Action pg.Db User
  active none = raise (authentication_error "User not found or inactive")
  active (some u) =
      if u.is_active then pure u else raise (authentication_error "User not found or inactive")

module _ ⦃pg : Postgres⦄ ⦃f : Formats⦄ ⦃y : Crypto⦄ (settings : Settings) (now : DateTime) where
  -- `get_current_user`
  unfoldable pub get_current_user : Option String → Action pg.Db User
  get_current_user none = raise (authentication_error "Missing authentication token")
  get_current_user (some token) = do
    payload ← payload_of (decode_token settings now token)
    raise_if (not (payload.type == some "access")) (authentication_error "Invalid token type")
    user_id ← or_raise (filled payload.sub) (authentication_error "Invalid token payload")
    id ← or_raise (f.uuid_parse user_id) value_error
    found ← Users.get_by_id id
    active found

  -- `get_optional_user`
  unfoldable pub get_optional_user : Option String → Action pg.Db (Option User)
  unfolding get_current_user
  get_optional_user none = pure none
  get_optional_user (some token) =
      try_except (get_current_user (some token) >>= λ u. pure (some u)) (λ e. pure none)

-- `require_role(*roles)`, on the user of the request
unfoldable pub require_role : {S : Type 0} → List UserRole → User → Action S User
require_role roles u =
    raise_if (not (contains (map role_value roles) u.role))
      (authorization_error "Insufficient permissions")
    >> pure u
