-- ===== src/Tests/Tokens.antt =====
-- The access tokens at concrete inputs, with tokens that are JSON objects.
use fastapi_url_shortener.Base.{
  ◌≡◌, refl, ◌*◌, ◌/◌, String, Bool, false, Option, arith, none, some, [], ◌∷◌, ◌==◌, ==_refl,
  string_eq, nat_eq, if◌then◌else◌, ltb,
}
use fastapi_url_shortener.Core.Errors.{Error, dbapi_error}
use fastapi_url_shortener.Core.Action.{ok, err}
use fastapi_url_shortener.Core.Security.{
  Claims, Crypto, IsCrypto, create_access_token, create_refresh_token,
}
use fastapi_url_shortener.Core.Settings.{default_settings}
use fastapi_url_shortener.Formats.{
  Formats, IsFormats, JsonObject, get, as_text, optional_text, text,
}
use fastapi_url_shortener.Formats.Memory.{memory_formats, memory_formats-IsFormats}
use fastapi_url_shortener.Models.{DateTime, RefreshToken, second}
use fastapi_url_shortener.Postgres.Memory.{MemoryDb, memory, memory-IsPostgres}
use fastapi_url_shortener.Repositories.Query.{first_where}
use fastapi_url_shortener.Repositories.RefreshTokens.{is_valid_for}
use fastapi_url_shortener.AuthService.{refresh}
use fastapi_url_shortener.AuthService.Stored.{IsUnique}
use fastapi_url_shortener.AuthService.Collision.{refresh-same_second}
use fastapi_url_shortener.Dependencies.{get_current_user}
use fastapi_url_shortener.Dependencies.Genuine.{HasUniqueIds, Answer, get_current_user_lem}
use fastapi_url_shortener.Dependencies.Tokens.{
  access_token-get_current_user, refresh_token-get_current_user,
}
use fastapi_url_shortener.Tests.Data.{ada, one_link}

abbrev keyed : Option String → String → Bool
keyed none key = false
keyed (some k) key = k == key

abbrev parsed : {A : Type 0} → (String → Option A) → Option String → Option A
parsed p none = none
parsed p (some s) = p s

abbrev dated : Option DateTime → Option String → Option String → DateTime → Option Claims
dated none sub type now = none
dated (some t) sub type now =
    if ltb now t then some (record { sub = sub; exp = t; type = type }) else none

module _ (f : Formats) where
  abbrev written : Claims → String → JsonObject
  written c key =
      ("sub", optional_text c.sub)
      ∷ ("exp", text (f.isoformat (c.exp / second * second)))
      ∷ ("type", optional_text c.type)
      ∷ ("key", text key)
      ∷ []

  abbrev opened : Option JsonObject → DateTime → String → Option Claims
  opened none now key = none
  opened (some d) now key =
      if keyed (as_text (get "key" d)) key
      then dated (parsed f.fromisoformat (as_text (get "exp" d))) (as_text (get "sub" d))
          (as_text (get "type" d)) now
      else none

  -- Passwords are kept as they are, and compared.
  abbrev json_tokens : Crypto
  json_tokens = record {
    encode = λ c key. f.dumps (written c key);
    decode = λ now token key. opened (f.loads token) now key;
    hash = λ salt password. password;
    verify = λ password hashed. password == hashed;
  }

  as_text-optional_text : (o : Option String) → as_text (optional_text o) ≡ o
  as_text-optional_text none = refl
  as_text-optional_text (some s) = refl

  whole-again : (t : DateTime) → t / second * second / second * second ≡ t / second * second
  whole-again t = omega arith

  json_tokens-IsCrypto : IsFormats f → IsCrypto json_tokens
  json_tokens-IsCrypto formats = record {
    encode-whole_seconds = λ c key. rw (whole-again c.exp) refl;
    decode-encode = λ c key now.
        rw
          (
            formats.loads-dumps (written c key),
            ==_refl key,
            formats.fromisoformat-isoformat (c.exp / second * second),
            as_text-optional_text c.sub,
            as_text-optional_text c.type,
          )
          refl;
    verify-hash = λ salt password. ==_refl password;
  }

instance abbrev pub json_crypto : Crypto
json_crypto = json_tokens memory_formats

pub json_crypto-IsCrypto : IsCrypto json_crypto
json_crypto-IsCrypto = json_tokens-IsCrypto memory_formats memory_formats-IsFormats

one_link-HasUniqueIds : HasUniqueIds one_link.users
one_link-HasUniqueIds i = ground arith

get_current_user_lem_example :
    Answer default_settings 5 one_link one_link-HasUniqueIds
      (create_access_token default_settings 3 (memory_formats.uuid_str 1) none)
      (get_current_user default_settings 5
        (some (create_access_token default_settings 3 (memory_formats.uuid_str 1) none))
        one_link)
get_current_user_lem_example =
    get_current_user_lem default_settings 5 one_link one_link-HasUniqueIds
      (create_access_token default_settings 3 (memory_formats.uuid_str 1) none)

access_token-get_current_user_example :
    get_current_user default_settings 5
      (some (create_access_token default_settings 3 (memory_formats.uuid_str 1) none))
      one_link
    ≡ (ok ada, one_link)
access_token-get_current_user_example =
    access_token-get_current_user json_crypto-IsCrypto memory_formats-IsFormats default_settings 3 5
      one_link ada one_link-HasUniqueIds refl refl refl (omega arith)

refresh_token-get_current_user_example :
    (e : Error) × (get_current_user default_settings 5
        (some (create_refresh_token default_settings 3 (memory_formats.uuid_str 1) none))
        one_link
      ≡ (err e, one_link))
refresh_token-get_current_user_example =
    refresh_token-get_current_user json_crypto-IsCrypto memory_formats-IsFormats default_settings 3
      5 one_link (memory_formats.uuid_str 1)

-- The refresh token that was made at the time 3, and its row.
abbrev fresh_token : String
fresh_token = create_refresh_token default_settings 3 (memory_formats.uuid_str 1) none

abbrev fresh_row : RefreshToken
fresh_row = record {
  id = 5;
  created_at = 3;
  updated_at = 3;
  user_id = 1;
  token_hash = fresh_token;
  expires_at = 9;
  is_revoked = false;
  user_agent = none;
  ip_address = none;
}

abbrev signed_in : MemoryDb
signed_in = record one_link { refresh_tokens = fresh_row ∷ [] }

signed_in-IsUnique : IsUnique signed_in.refresh_tokens
signed_in-IsUnique h = ground arith

fresh_row-found :
    first_where (is_valid_for (memory_formats.sha256 fresh_token) 5) signed_in.refresh_tokens
    ≡ some fresh_row
unfolding is_valid_for
fresh_row-found = rw (==_refl fresh_token) refl

refresh-same_second_example :
    (refresh default_settings fresh_token 6 5 signed_in).0 ≡ err dbapi_error
refresh-same_second_example =
    refresh-same_second memory-IsPostgres json_crypto-IsCrypto default_settings 3 5
      (memory_formats.uuid_str 1) signed_in 6 fresh_row signed_in-IsUnique fresh_row-found
      (omega arith) (omega arith)
