-- ===== src/Models.antt =====
-- app/models and app/db/base.py: the rows of the tables, and the constraints that their columns
-- declare. A UUID is its 128-bit number, and a time is a number of microseconds (UTC).
use Prim.Native.String.{count}
use fastapi_url_shortener.Base.{
  ℕ, String, Bool, true, false, not, ◌&&◌, Option, none, some, List, leb, ◌==◌, any, nat_eq,
  string_eq,
}

abbrev pub Uuid : Type 0
Uuid = ℕ

abbrev pub DateTime : Type 0
DateTime = ℕ

-- One second, in microseconds.
abbrev pub second : ℕ
second = 1000000

pub data UserRole : Type 0 where
  user admin : UserRole

pub record User : Type 0 where
  pub id : Uuid
  pub created_at : DateTime
  pub updated_at : DateTime
  pub email : String
  pub hashed_password : String
  pub full_name : Option String
  pub role : String
  pub is_active : Bool
  pub is_verified : Bool

pub record ShortUrl : Type 0 where
  pub id : Uuid
  pub created_at : DateTime
  pub updated_at : DateTime
  pub original_url : String
  pub short_code : String
  pub custom_alias : Option String
  pub title : Option String
  pub owner_id : Option Uuid
  pub is_active : Bool
  pub is_public : Bool
  pub expires_at : Option DateTime
  pub click_count : ℕ

pub record RefreshToken : Type 0 where
  pub id : Uuid
  pub created_at : DateTime
  pub updated_at : DateTime
  pub user_id : Uuid
  pub token_hash : String
  pub expires_at : DateTime
  pub is_revoked : Bool
  pub user_agent : Option String
  pub ip_address : Option String

pub record ClickEvent : Type 0 where
  pub short_url_id : Uuid
  pub created_at : DateTime
  pub visitor_hash : Option String
  pub country : Option String
  pub city : Option String
  pub referrer : Option String
  pub user_agent : Option String
  pub browser : Option String
  pub os : Option String
  pub device : Option String

-- `String(n)`: a text of at most n characters, or NULL.
abbrev pub fits : ℕ → Option String → Bool
fits n none = true
fits n (some s) = leb (count s) n

-- `unique=True` on a nullable column: NULLs do not clash.
abbrev pub clashes : Option String → Option String → Bool
clashes none b = false
clashes (some a) none = false
clashes (some a) (some b) = a == b

-- A foreign key to `users.id`, or NULL.
abbrev pub owner_exists : List User → Option Uuid → Bool
owner_exists users none = true
owner_exists users (some o) = any (λ v. v.id == o) users

-- The columns of `short_urls`, its unique constraints and its foreign key.
unfoldable pub admits_short_url : List User → List ShortUrl → ShortUrl → Bool
admits_short_url users urls u =
    not (any (λ v. v.id == u.id) urls)
    && not (any (λ v. v.short_code == u.short_code) urls)
    && not (any (λ v. clashes v.custom_alias u.custom_alias) urls)
    && fits 50 (some u.short_code)
    && fits 50 u.custom_alias
    && fits 255 u.title
    && owner_exists users u.owner_id

-- The columns of `users`.
unfoldable pub admits_user : List User → User → Bool
admits_user users u =
    not (any (λ v. v.id == u.id) users)
    && not (any (λ v. v.email == u.email) users)
    && fits 255 (some u.email)
    && fits 255 (some u.hashed_password)
    && fits 255 u.full_name
    && fits 20 (some u.role)

-- The columns of `refresh_tokens`.
unfoldable pub admits_refresh_token : List User → List RefreshToken → RefreshToken → Bool
admits_refresh_token users tokens t =
    not (any (λ v. v.id == t.id) tokens)
    && not (any (λ v. v.token_hash == t.token_hash) tokens)
    && any (λ v. v.id == t.user_id) users
    && fits 64 (some t.token_hash)
    && fits 512 t.user_agent
    && fits 45 t.ip_address

-- The columns of `click_events`.
unfoldable pub admits_click_event : List ShortUrl → ClickEvent → Bool
admits_click_event urls e =
    any (λ v. v.id == e.short_url_id) urls
    && fits 64 e.visitor_hash
    && fits 2 e.country
    && fits 100 e.city
    && fits 2048 e.referrer
    && fits 512 e.user_agent
    && fits 50 e.browser
    && fits 50 e.os
    && fits 20 e.device
