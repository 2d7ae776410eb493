-- ===== src/AuthService/Collision.antt =====
-- `refresh` of app/services/auth.py in the second in which the token was made.
use fastapi_url_shortener.Base.{
  ◌+◌, ◌*◌, ◌/◌, ◌<◌, String, ◌≡◌, refl, sym, ap, ◌∙◌, Bool, true, ◌&&◌, none, some, arith, ◌==◌,
  nat_eq, string_eq, option_eq, ltb, count_where, any-count_where, inl, inr, Bool-cases,
  Option-cases,
}
use fastapi_url_shortener.Core.Errors.{dbapi_error}
use fastapi_url_shortener.Core.Action.{attempt, ok, err}
use fastapi_url_shortener.Core.Security.{
  Crypto, Claims, IsCrypto, create_refresh_token, decode_token, days, whole_seconds,
}
use fastapi_url_shortener.Core.Settings.{Settings}
use fastapi_url_shortener.Formats.{Formats}
use fastapi_url_shortener.Models.{Uuid, DateTime, second, RefreshToken, admits_refresh_token}
use fastapi_url_shortener.Postgres.{Postgres}
use fastapi_url_shortener.Postgres.Laws.{IsPostgres}
use fastapi_url_shortener.Repositories.BaseRepository as Base
use fastapi_url_shortener.Repositories.Query.{first_where, first_where-passes, first_where-count}
use fastapi_url_shortener.Repositories.RefreshTokens as Repo
use fastapi_url_shortener.Repositories.RefreshTokens.{is_valid_for, revoked}
use fastapi_url_shortener.AuthService.{new_token, refresh}
use fastapi_url_shortener.AuthService.Stored.{IsUnique, count-revoked, get_by_hash-lem}
use fastapi_url_shortener.AuthService.Sessions.{admitted_new}

left : (a b : Bool) → (a && b) ≡ true → a ≡ true
left a b h = ground arith

-- The second in which a refresh token ends.
abbrev pub refresh_end : Settings → DateTime → DateTime
refresh_end settings now = (now + days settings.refresh_token_expire_days) / second

module _ ⦃y : Crypto⦄ (crypto : IsCrypto y) (settings : Settings) (made now : DateTime)
    (subject : String) where
  abbrev claims : DateTime → Claims
  claims t = record {
    sub = some subject;
    exp = t + days settings.refresh_token_expire_days;
    type = some "refresh";
  }

  -- Tokens that end in the same second are the same.
  same_token :
      refresh_end settings now ≡ refresh_end settings made
      → create_refresh_token settings now subject none
        ≡ create_refresh_token settings made subject none
  unfolding create_refresh_token
  same_token h =
      crypto.encode-whole_seconds (claims now) settings.secret_key
      ∙ ap
          (λ t.
            y.encode (record { sub = some subject; exp = t * second; type = some "refresh" })
              settings.secret_key)
          h
      ∙ sym (crypto.encode-whole_seconds (claims made) settings.secret_key)

  decoded :
      now < refresh_end settings made * second
      → decode_token settings now (create_refresh_token settings made subject none)
        ≡ ok (whole_seconds (claims made))
  unfolding decode_token create_refresh_token
  decoded alive =
      let fresh : ltb now (refresh_end settings made * second) ≡ true = ground arith in
      rw (crypto.decode-encode (claims made) settings.secret_key now, fresh, decode_token)

module _ ⦃pg : Postgres⦄ ⦃f : Formats⦄ ⦃y : Crypto⦄ (laws : IsPostgres pg) (crypto : IsCrypto y)
    (settings : Settings) (made now : DateTime) (subject : String) (db : pg.Db) where
  abbrev token : String
  token = create_refresh_token settings made subject none

  -- A second row of the hash is refused, also once the first is revoked.
  clash :
      (id : Uuid) (stored : RefreshToken)
      → first_where (is_valid_for (f.sha256 token) now) (pg.refresh_tokens.rows db) ≡ some stored
      → pg.refresh_tokens.add
          (new_token settings id now stored.user_id token none none)
          (pg.refresh_tokens.update (λ t. t.id == stored.id) (revoked now) db)
        ≡ none
  unfolding is_valid_for
  clash id stored found =
      let h = f.sha256 token in
      let new = new_token settings id now stored.user_id token none none in
      let q : RefreshToken → Bool = λ t. t.id == stored.id in
      let db₁ = pg.refresh_tokens.update q (revoked now) db in
      let law = laws.refresh_tokens.rows-add new db₁ in
      let hashed : (stored.token_hash == h) ≡ true =
        left _ _
          (left _ _ (first_where-passes (is_valid_for h now) (pg.refresh_tokens.rows db) found)) in
      elim (Bool-cases
        (admits_refresh_token (pg.users.rows db₁) (pg.refresh_tokens.rows db₁) new)) [
          | inl admitted ↦
              let unused =
                admitted_new (pg.users.rows db₁) (pg.refresh_tokens.rows db₁) new admitted in
              absurd (
                omega (
                  arith,
                  any-count_where (λ t. t.token_hash == h) (pg.refresh_tokens.rows db₁) unused,
                  ap (count_where (λ t. t.token_hash == h))
                      (laws.refresh_tokens.rows-update q (revoked now) db),
                  count-revoked h now q (pg.refresh_tokens.rows db),
                  first_where-count (λ t. t.token_hash == h) (is_valid_for h now)
                      (pg.refresh_tokens.rows db) found hashed,
                ))
          | inr refused ↦ elim (Option-cases (pg.refresh_tokens.add new db₁)) [
            | inl nothing ↦ nothing
            | inr (db₂, added) ↦ cc (rw (added, refused) at law)
          ]
        ]

  -- A refresh token that is used again in the second in which it was made makes the same token
  -- anew, whose hash PostgreSQL refuses: the answer is an error of the database, which is no error
  -- of the program. The token is stored, and has not ended; stored hashes are unique.
  pub refresh-same_second :
      (id : Uuid) (stored : RefreshToken)
      → IsUnique (pg.refresh_tokens.rows db)
      → first_where (is_valid_for (f.sha256 token) now) (pg.refresh_tokens.rows db) ≡ some stored
      → now < refresh_end settings made * second
      → refresh_end settings now ≡ refresh_end settings made
      → (refresh settings token id now db).0 ≡ err dbapi_error
  unfolding refresh Repo.update Base.update Repo.create Base.create
  refresh-same_second id stored unique found alive same =
      rw
        (
          get_by_hash-lem (f.sha256 token) now db (unique (f.sha256 token)),
          found,
          decoded crypto settings made now subject alive,
          same_token crypto settings made now subject same,
          clash id stored found,
          attempt,
        )
        refl
