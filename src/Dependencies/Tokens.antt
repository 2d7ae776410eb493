-- ===== src/Dependencies/Tokens.antt =====
-- The tokens of app/core/security.py at `get_current_user` of app/dependencies/auth.py and at
-- `refresh` of app/services/auth.py.
use fastapi_url_shortener.Base.{
  ◌+◌, ◌*◌, ◌/◌, ◌<◌, String, ◌≡◌, true, false, none, some, arith, ◌==◌, nat_eq, string_eq,
  option_eq, ltb, inl, inr, Bool-cases,
}
use fastapi_url_shortener.Core.Errors.{Error, authentication_error}
use fastapi_url_shortener.Core.Action.{ok, err, Result-cases}
use fastapi_url_shortener.Core.Security.{
  Crypto, Claims, IsCrypto, create_access_token, create_refresh_token, decode_token, minutes, days,
}
use fastapi_url_shortener.Core.Settings.{Settings}
use fastapi_url_shortener.Formats.{Formats, IsFormats}
use fastapi_url_shortener.Models.{DateTime, User, second}
use fastapi_url_shortener.Postgres.{Postgres}
use fastapi_url_shortener.Repositories.Query.{first_where}
use fastapi_url_shortener.Dependencies.{get_current_user}
use fastapi_url_shortener.Dependencies.Genuine.{HasUniqueIds, user_by_id, active_on}

module _ ⦃y : Crypto⦄ (crypto : IsCrypto y) (settings : Settings) (now later : DateTime)
    (subject : String) where
  -- The second at which an access token made at `now` ends.
  abbrev pub access_end : DateTime
  access_end = (now + minutes settings.access_token_expire_minutes) / second * second

  pub decode-access :
      later < access_end
      → decode_token settings later (create_access_token settings now subject none)
        ≡ ok (record { sub = some subject; exp = access_end; type = some "access" })
  unfolding decode_token create_access_token
  decode-access alive =
      let claims : Claims = record {
        sub = some subject;
        exp = now + minutes settings.access_token_expire_minutes;
        type = some "access";
      } in
      let fresh : ltb later access_end ≡ true = ground arith in
      rw (crypto.decode-encode claims settings.secret_key later, fresh, decode_token)

  -- A refresh token decodes, if at all, to claims of its own type.
  pub decode-refresh :
      (c : Claims)
      → decode_token settings later (create_refresh_token settings now subject none) ≡ ok c
      → c.type ≡ some "refresh"
  unfolding decode_token create_refresh_token
  decode-refresh c h =
      let claims : Claims = record {
        sub = some subject;
        exp = now + days settings.refresh_token_expire_days;
        type = some "refresh";
      } in
      elim (Bool-cases (ltb later (claims.exp / second * second))) [
        | inl fresh ↦
            cc
              (rw (crypto.decode-encode claims settings.secret_key later, fresh, decode_token) at h)
        | inr ended ↦
            cc
              (rw (crypto.decode-encode claims settings.secret_key later, ended, decode_token) at h)
      ]

module _ ⦃pg : Postgres⦄ ⦃f : Formats⦄ ⦃y : Crypto⦄ (crypto : IsCrypto y) (formats : IsFormats f)
    (settings : Settings) (now later : DateTime) (db : pg.Db) where
  -- An access token that was made for an active user lets exactly that user in, at every time
  -- before the second in which it ends. Ids are unique, and no id is written as the empty text.
  pub access_token-get_current_user :
      (u : User)
      → HasUniqueIds (pg.users.rows db)
      → first_where (λ v. v.id == u.id) (pg.users.rows db) ≡ some u
      → u.is_active ≡ true
      → (f.uuid_str u.id == "") ≡ false
      → later < access_end crypto settings now later (f.uuid_str u.id)
      → get_current_user settings later
          (some (create_access_token settings now (f.uuid_str u.id) none))
          db
        ≡ (ok u, db)
  unfolding get_current_user
  access_token-get_current_user u unique known on written alive = rw (
    decode-access crypto settings now later (f.uuid_str u.id) alive,
    written,
    formats.uuid_parse-uuid_str u.id,
    user_by_id db unique u.id,
    known,
    active_on u db on,
  )

  -- A refresh token lets nobody in, whoever it was made for and whenever it is shown.
  pub refresh_token-get_current_user :
      (subject : String)
      → (e : Error) × (get_current_user settings later
            (some (create_refresh_token settings now subject none))
            db
          ≡ (err e, db))
  unfolding get_current_user
  refresh_token-get_current_user subject =
      let token = create_refresh_token settings now subject none in
      elim (Result-cases (decode_token settings later token)) [
        | inl (e, bad) ↦ (authentication_error "Invalid or expired token", rw bad)
        | inr (c, good) ↦
            let kind : (c.type == some "access") ≡ false =
              rw (decode-refresh crypto settings now later subject c good) in
            (authentication_error "Invalid token type", rw (good, kind))
      ]
