-- ===== src/Core/Security.antt =====
-- app/core/security.py. bcrypt and the JWT library are parameters.
use fastapi_url_shortener.Base.{
  ℕ, ◌+◌, ◌*◌, ◌/◌, String, ◌≡◌, Bool, true, Option, none, some, ltb, if◌then◌else◌,
}
use fastapi_url_shortener.Core.Errors.{value_error}
use fastapi_url_shortener.Core.Action.{Result, ok, err}
use fastapi_url_shortener.Core.Settings.{Settings}
use fastapi_url_shortener.Models.{DateTime, second}

-- The claims of a token that the program reads; a decoded token may lack some.
pub record Claims : Type 0 where
  pub sub : Option String
  pub exp : DateTime
  pub type : Option String

pub record Crypto : Type 0 where
  -- `jwt.encode` with a key; `jwt.decode` at a time, none where it raises JWTError
  pub encode : Claims → String → String
  pub decode : DateTime → String → String → Option Claims
  -- `pwd_context.hash` with its random salt, and `pwd_context.verify`
  pub hash : ℕ → String → String
  pub verify : String → String → Bool

-- The expiry of a token is kept in whole seconds.
abbrev pub whole_seconds : Claims → Claims
whole_seconds c = record c { exp = (c.exp / second) * second }

pub record IsCrypto (y : Crypto) : Type 0 where
  pub encode-whole_seconds :
      (c : Claims) (key : String) → y.encode c key ≡ y.encode (whole_seconds c) key
  pub decode-encode :
      (c : Claims) (key : String) (now : DateTime)
      → y.decode now (y.encode c key) key
        ≡ (if ltb now (c.exp / second * second) then some (whole_seconds c) else none)
  pub verify-hash : (salt : ℕ) (password : String) → y.verify password (y.hash salt password) ≡ true

-- `timedelta(minutes=m)`, `timedelta(days=d)`
abbrev pub minutes : ℕ → ℕ
minutes m = m * 60 * second

abbrev pub days : ℕ → ℕ
days d = d * 86400 * second

-- `expires_delta or default`
abbrev pub delta_or : Option ℕ → ℕ → ℕ
delta_or none default = default
delta_or (some ℕ.zero) default = default
delta_or (some (ℕ.suc n)) default = ℕ.suc n

module _ ⦃y : Crypto⦄ (settings : Settings) where
  unfoldable pub create_access_token : DateTime → String → Option ℕ → String
  create_access_token now subject expires_delta =
      y.encode
        (record {
          sub = some subject;
          exp = now + delta_or expires_delta (minutes settings.access_token_expire_minutes);
          type = some "access";
        })
        settings.secret_key

  unfoldable pub create_refresh_token : DateTime → String → Option ℕ → String
  create_refresh_token now subject expires_delta =
      y.encode
        (record {
          sub = some subject;
          exp = now + delta_or expires_delta (days settings.refresh_token_expire_days);
          type = some "refresh";
        })
        settings.secret_key

  -- `decode_token`: JWTError becomes ValueError
  unfoldable pub decode_token : DateTime → String → Result Claims
  decode_token now token = elim (y.decode now token settings.secret_key) [
    | none ↦ err value_error
    | some c ↦ ok c
  ]
