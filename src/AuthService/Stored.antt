-- ===== src/AuthService/Stored.antt =====
-- The rows of app/models/refresh_token.py, as the queries by hash see them.
use fastapi_url_shortener.Base.{
  ◌≤◌, String, ◌≡◌, refl, ◌∙◌, Bool, false, not, ◌&&◌, none, Bool-cases, inl, inr, some, List, [],
  ◌∷◌, ◌++◌, arith, ◌==◌, nat_eq, string_eq, eq_iff, any, update_where, count_where,
  count_where_mono, count_where-append, any-count_where,
}
use fastapi_url_shortener.Core.Action.{ok}
use fastapi_url_shortener.Models.{DateTime, RefreshToken}
use fastapi_url_shortener.Postgres.{Postgres}
use fastapi_url_shortener.Repositories.BaseRepository as Base
use fastapi_url_shortener.Repositories.Query.{
  first_where, scalar_one_or_none-select, first_where_of_none,
}
use fastapi_url_shortener.Repositories.RefreshTokens.{is_valid_for, revoked, get_by_hash}

-- `unique=True` on `token_hash`.
abbrev pub IsUnique : List RefreshToken → Type 0
IsUnique tokens = (h : String) → count_where (λ t. t.token_hash == h) tokens ≤ 1

abbrev usable : String → RefreshToken → Bool
usable h t = t.token_hash == h && not t.is_revoked

-- No row of the hash is left unrevoked.
abbrev pub IsSpent : String → List RefreshToken → Type 0
IsSpent h tokens = count_where (usable h) tokens ≡ 0

-- A query by hash and time finds nothing.
abbrev pub IsRefused : String → DateTime → List RefreshToken → Type 0
IsRefused h now tokens = count_where (is_valid_for h now) tokens ≡ 0

pub IsSpent-IsRefused :
    (h : String) (now : DateTime) (tokens : List RefreshToken)
    → IsSpent h tokens
    → IsRefused h now tokens
unfolding is_valid_for
IsSpent-IsRefused h now tokens spent =
    omega
      (arith, spent, count_where_mono (is_valid_for h now) (usable h) (λ t v. ground arith) tokens)

-- What is refused once is refused later.
pub IsRefused-later :
    (h : String) (now later : DateTime) (tokens : List RefreshToken)
    → now ≤ later
    → IsRefused h now tokens
    → IsRefused h later tokens
unfolding is_valid_for
IsRefused-later h now later tokens after refused = omega (
  arith,
  refused,
  count_where_mono (is_valid_for h later) (is_valid_for h now) (λ t v. ground arith) tokens,
)

valid_le :
    (h : String) (now : DateTime) (tokens : List RefreshToken)
    → count_where (λ t. t.token_hash == h) tokens ≤ 1
    → count_where (is_valid_for h now) tokens ≤ 1
unfolding is_valid_for
valid_le h now tokens one = omega (
  arith,
  one,
  count_where_mono (is_valid_for h now) (λ t. t.token_hash == h) (λ t v. ground arith) tokens,
)

-- Without a row of the hash, none is usable.
absent-IsSpent :
    (h : String) (tokens : List RefreshToken)
    → count_where (λ t. t.token_hash == h) tokens ≡ 0
    → IsSpent h tokens
absent-IsSpent h tokens absent = omega (
  arith,
  absent,
  count_where_mono (usable h) (λ t. t.token_hash == h) (λ t v. ground arith) tokens,
)

-- A change that keeps the hashes keeps their counts.
pub count-revoked :
    (h : String) (now : DateTime) (q : RefreshToken → Bool) (tokens : List RefreshToken)
    → count_where (λ t. t.token_hash == h) (update_where q (revoked now) tokens)
      ≡ count_where (λ t. t.token_hash == h) tokens
count-revoked h now q [] = refl
count-revoked h now q (t ∷ tokens) = ground (arith, count-revoked h now q tokens)

-- Once the row that a query by hash has found is revoked, no row of the hash is usable.
pub revoke-IsSpent :
    (h : String) (now : DateTime) (tokens : List RefreshToken) (stored : RefreshToken)
    → count_where (λ t. t.token_hash == h) tokens ≤ 1
    → first_where (is_valid_for h now) tokens ≡ some stored
    → IsSpent h (update_where (λ t. t.id == stored.id) (revoked now) tokens)
unfolding is_valid_for
revoke-IsSpent h now [] stored one found = refl
revoke-IsSpent h now (t ∷ tokens) stored one found = elim (Bool-cases (t.token_hash == h)) [
  | inl same ↦
      let rest : count_where (λ x. x.token_hash == h) tokens ≡ 0 = ground arith in
      let invalid : count_where (is_valid_for h now) tokens ≡ 0 =
        IsSpent-IsRefused h now tokens (absent-IsSpent h tokens rest) in
      let q : RefreshToken → Bool = λ x. x.id == stored.id in
      ground (
        arith,
        first_where_of_none (is_valid_for h now) tokens invalid,
        absent-IsSpent h (update_where q (revoked now) tokens)
            (count-revoked h now q tokens ∙ rest),
      )
  | inr other ↦ ground (arith, revoke-IsSpent h now tokens stored)
]

-- A row with another hash leaves the hash spent.
pub append-IsSpent :
    (h : String) (tokens : List RefreshToken) (new : RefreshToken)
    → 1 ≤ count_where (λ t. t.token_hash == h) tokens
    → any (λ t. t.token_hash == new.token_hash) tokens ≡ false
    → IsSpent h tokens
    → IsSpent h (tokens ++ new ∷ [])
append-IsSpent h tokens new there fresh spent = elim (Bool-cases (new.token_hash == h)) [
  | inl same ↦
      let e : new.token_hash ≡ h = (eq_iff new.token_hash h).0 same in
      let none_of_it : any (λ t. t.token_hash == h) tokens ≡ false = rw (← e) fresh in
      absurd (omega (arith, there, any-count_where (λ t. t.token_hash == h) tokens none_of_it))
  | inr other ↦ ground (arith, count_where-append (usable h) tokens (new ∷ []), spent)
]

-- The query of a hash that is refused, and of one that is not.
module _ ⦃pg : Postgres⦄ (h : String) (now : DateTime) (db : pg.Db) where
  pub get_by_hash-lem :
      count_where (λ t. t.token_hash == h) (pg.refresh_tokens.rows db) ≤ 1
      → get_by_hash h now db
        ≡ (ok (first_where (is_valid_for h now) (pg.refresh_tokens.rows db)), db)
  unfolding get_by_hash Base.find_one
  get_by_hash-lem one =
      let few : count_where (is_valid_for h now) (pg.refresh_tokens.rows db) ≤ 1 =
        valid_le h now (pg.refresh_tokens.rows db) one in
      rw (scalar_one_or_none-select (is_valid_for h now) (pg.refresh_tokens.rows db) few)

  pub get_by_hash-refused :
      IsRefused h now (pg.refresh_tokens.rows db) → get_by_hash h now db ≡ (ok none, db)
  unfolding get_by_hash Base.find_one
  get_by_hash-refused refused = rw (
    scalar_one_or_none-select (is_valid_for h now) (pg.refresh_tokens.rows db)
        (omega (arith, refused)),
    first_where_of_none (is_valid_for h now) (pg.refresh_tokens.rows db) refused,
  )
