-- ===== src/AuthService/Sessions.antt =====
-- `refresh` and `logout` of app/services/auth.py.
use fastapi_url_shortener.Base.{
  ◌≤◌, String, ◌≡◌, refl, Bool, true, false, not, ◌&&◌, none, some, List, [], ◌∷◌, ◌++◌, arith,
  ◌==◌, nat_eq, string_eq, option_eq, any, update_where, count_where, Option-cases, Bool-cases, inl,
  inr,
}
use fastapi_url_shortener.Core.Action.{attempt, Result-cases, ok, err}
use fastapi_url_shortener.Core.Errors.{authentication_error}
use fastapi_url_shortener.Core.Security.{Crypto, decode_token}
use fastapi_url_shortener.Core.Settings.{Settings}
use fastapi_url_shortener.Formats.{Formats}
use fastapi_url_shortener.Models.{Uuid, DateTime, User, RefreshToken, admits_refresh_token}
use fastapi_url_shortener.Postgres.{Postgres}
use fastapi_url_shortener.Postgres.Laws.{IsPostgres}
use fastapi_url_shortener.Repositories.BaseRepository as Base
use fastapi_url_shortener.Repositories.Query.{
  first_where, first_where-none, first_where-passes, first_where-count,
}
use fastapi_url_shortener.Repositories.RefreshTokens as Repo
use fastapi_url_shortener.Repositories.RefreshTokens.{is_valid_for, revoked}
use fastapi_url_shortener.AuthService.{TokenResponse, new_token, issued, refresh, logout}
use fastapi_url_shortener.AuthService.Stored.{
  IsUnique, IsSpent, IsRefused, IsSpent-IsRefused, IsRefused-later, revoke-IsSpent, append-IsSpent,
  count-revoked, get_by_hash-lem, get_by_hash-refused,
}

left : (a b : Bool) → (a && b) ≡ true → a ≡ true
left a b h = ground arith

right_not : (a b : Bool) → (a && not b) ≡ true → b ≡ false
right_not a b h = ground arith

-- What the unique constraint says of a token that goes in.
pub admitted_new :
    (users : List User) (tokens : List RefreshToken) (t : RefreshToken)
    → admits_refresh_token users tokens t ≡ true
    → any (λ v. v.token_hash == t.token_hash) tokens ≡ false
unfolding admits_refresh_token
admitted_new users tokens t h = right_not _ _ (left _ _ (left _ _ (left _ _ (left _ _ h))))

module _ ⦃pg : Postgres⦄ ⦃f : Formats⦄ ⦃y : Crypto⦄ (laws : IsPostgres pg) (settings : Settings)
    (token : String) (db : pg.Db) where
  refresh-refused :
      (id : Uuid) (now : DateTime)
      → IsRefused (f.sha256 token) now (pg.refresh_tokens.rows db)
      → refresh settings token id now db
        ≡ (err (authentication_error "Invalid or expired refresh token"), db)
  unfolding refresh
  refresh-refused id now refused = rw (get_by_hash-refused (f.sha256 token) now db refused)

module _ ⦃pg : Postgres⦄ ⦃f : Formats⦄ ⦃y : Crypto⦄ (laws : IsPostgres pg) (settings : Settings)
    (token : String) (db : pg.Db) where
  logout-IsRefused :
      (now : DateTime)
      → IsUnique (pg.refresh_tokens.rows db)
      → (db' : pg.Db) × (logout settings token now db ≡ (ok tt, db'))
        × ((later : DateTime)
            → now ≤ later
            → IsRefused (f.sha256 token) later (pg.refresh_tokens.rows db'))
  unfolding logout Repo.update Base.update
  logout-IsRefused now unique =
      let h = f.sha256 token in
      elim (Option-cases (first_where (is_valid_for h now) (pg.refresh_tokens.rows db))) [
        | inl absent ↦ (
          db,
          rw (get_by_hash-lem h now db (unique h), absent),
          λ later after.
              IsRefused-later h now later (pg.refresh_tokens.rows db) after
                (first_where-none (is_valid_for h now) (pg.refresh_tokens.rows db) absent),
        )
        | inr (stored, found) ↦ (
          pg.refresh_tokens.update (λ t. t.id == stored.id) (revoked now) db,
          rw (get_by_hash-lem h now db (unique h), found),
          λ later after.
              rw (laws.refresh_tokens.rows-update (λ t. t.id == stored.id) (revoked now) db) (
                IsSpent-IsRefused h later
                  (update_where (λ t. t.id == stored.id) (revoked now) (pg.refresh_tokens.rows db))
                  (revoke-IsSpent h now (pg.refresh_tokens.rows db) stored (unique h) found)),
        )
      ]

  -- After a logout, which always ends normally, the token is refused at every later time: stored
  -- hashes are unique, and the clock does not go back.
  pub logout-refresh :
      (now later : DateTime) (id : Uuid)
      → IsUnique (pg.refresh_tokens.rows db)
      → now ≤ later
      → let (a, db') = logout settings token now db in
        (a ≡ ok tt)
        × (refresh settings token id later db'
            ≡ (err (authentication_error "Invalid or expired refresh token"), db'))
  logout-refresh now later id unique after =
      let (db', ends, refused) = logout-IsRefused now unique in
      rw ends (refl, refresh-refused laws settings token db' id later (refused later after))

  abbrev revoked_at : DateTime → RefreshToken → pg.Db
  revoked_at now stored = pg.refresh_tokens.update (λ t. t.id == stored.id) (revoked now) db

  -- A refresh that ends normally has revoked the row it found, and then added one.
  refresh-ok :
      (id : Uuid) (now : DateTime) (stored : RefreshToken) (response : TokenResponse)
      → IsUnique (pg.refresh_tokens.rows db)
      → first_where (is_valid_for (f.sha256 token) now) (pg.refresh_tokens.rows db) ≡ some stored
      → (refresh settings token id now db).0 ≡ ok response
      → (new : RefreshToken) × (pg.refresh_tokens.add new (revoked_at now stored)
          ≡ some (refresh settings token id now db).1)
  unfolding refresh Repo.update Base.update Repo.create Base.create
  refresh-ok id now stored response unique found h =
      let h₁ = get_by_hash-lem (f.sha256 token) now db (unique (f.sha256 token)) in
      elim (Result-cases (decode_token settings now token)) [
        | inl (e, bad) ↦ cc (rw (h₁, found, bad) at h)
        | inr (c, good) ↦ elim (Bool-cases (c.type == some "refresh")) [
          | inl kind ↦ elim (Option-cases c.sub) [
            | inl nobody ↦ cc (rw (h₁, found, good, kind, nobody) at h)
            | inr (sub, somebody) ↦
                let new =
                  new_token settings id now stored.user_id (issued settings now sub).refresh_token
                    none none in
                elim (Option-cases (pg.refresh_tokens.add new (revoked_at now stored))) [
                  | inl clash ↦ cc (rw (h₁, found, good, kind, somebody, clash, attempt) at h)
                  | inr (db', added) ↦ (new, rw (h₁, found, good, kind, somebody, added, attempt))
                ]
          ]
          | inr other ↦ cc (rw (h₁, found, good, other) at h)
        ]
      ]

  -- The rows of the tokens after a row went in.
  pub added_token :
      (t : RefreshToken) (db₁ db₂ : pg.Db)
      → pg.refresh_tokens.add t db₁ ≡ some db₂
      → (admits_refresh_token (pg.users.rows db₁) (pg.refresh_tokens.rows db₁) t ≡ true)
        × (pg.refresh_tokens.rows db₂ ≡ pg.refresh_tokens.rows db₁ ++ t ∷ [])
  added_token t db₁ db₂ h = ground (arith, laws.refresh_tokens.rows-add t db₁)

  -- Revoked, the row stays there with its hash, and no row of the hash is usable.
  revoked-IsSpent :
      (now : DateTime) (stored : RefreshToken)
      → IsUnique (pg.refresh_tokens.rows db)
      → first_where (is_valid_for (f.sha256 token) now) (pg.refresh_tokens.rows db) ≡ some stored
      → IsSpent (f.sha256 token) (pg.refresh_tokens.rows (revoked_at now stored))
        × (1
            ≤ count_where
                (λ t. t.token_hash == f.sha256 token)
                (pg.refresh_tokens.rows (revoked_at now stored)))
  unfolding is_valid_for
  revoked-IsSpent now stored unique found =
      let h = f.sha256 token in
      let tokens = pg.refresh_tokens.rows db in
      let q : RefreshToken → Bool = λ t. t.id == stored.id in
      let passes = first_where-passes (is_valid_for h now) tokens {x = stored} found in
      let there =
        first_where-count (λ t. t.token_hash == h) (is_valid_for h now) tokens {x = stored} found
          (left _ _ (left _ _ passes)) in
      rw (laws.refresh_tokens.rows-update q (revoked now) db) (
        revoke-IsSpent h now tokens stored (unique h) found,
        omega (arith, count-revoked h now q tokens, there),
      )

  -- A refresh token is good for one refresh: after a refresh that ended normally, every further
  -- refresh with the same token, at any time, is refused and changes nothing. Stored hashes are
  -- unique.
  pub refresh-twice :
      (id id' : Uuid) (now later : DateTime) (response : TokenResponse)
      → IsUnique (pg.refresh_tokens.rows db)
      → (refresh settings token id now db).0 ≡ ok response
      → let db' = (refresh settings token id now db).1 in
        refresh settings token id' later db'
        ≡ (err (authentication_error "Invalid or expired refresh token"), db')
  refresh-twice id id' now later response unique h =
      let hash = f.sha256 token in
      let tokens = pg.refresh_tokens.rows db in
      let db' = (refresh settings token id now db).1 in
      elim (Option-cases (first_where (is_valid_for hash now) tokens)) [
        | inl absent ↦
            let refused = first_where-none (is_valid_for hash now) tokens absent in
            cc (rw (refresh-refused laws settings token db id now refused) at h)
        | inr (stored, found) ↦
            let (new, went_in) = refresh-ok id now stored response unique found h in
            let (admitted, rows) = added_token new (revoked_at now stored) db' went_in in
            let (spent, there) = revoked-IsSpent now stored unique found in
            let old = pg.refresh_tokens.rows (revoked_at now stored) in
            let fresh = admitted_new (pg.users.rows (revoked_at now stored)) old new admitted in
            refresh-refused laws settings token db' id' later (
              IsSpent-IsRefused hash later (pg.refresh_tokens.rows db')
                (rw rows (append-IsSpent hash old new there fresh spent)))
      ]
