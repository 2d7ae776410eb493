-- ===== src/AuthService/Login.antt =====
-- `login` of app/services/auth.py.
use fastapi_url_shortener.Base.{
  String, ◌≡◌, refl, Bool, true, ◌&&◌, none, some, Option, List, [], ◌∷◌, ◌++◌, arith, ◌==◌,
  string_eq, inl, inr, Bool-cases, Option-cases, select,
}
use fastapi_url_shortener.Core.Action.{Result-cases, attempt, Result, ok, err}
use fastapi_url_shortener.Core.Errors.{Error, authentication_error}
use fastapi_url_shortener.Core.Security.{Crypto}
use fastapi_url_shortener.Core.Settings.{Settings}
use fastapi_url_shortener.Formats.{Formats}
use fastapi_url_shortener.Models.{Uuid, DateTime, User}
use fastapi_url_shortener.Postgres.{Postgres}
use fastapi_url_shortener.Postgres.Laws.{IsPostgres}
use fastapi_url_shortener.Repositories.BaseRepository as Base
use fastapi_url_shortener.Repositories.Query.{scalar_one_or_none, first_where, first_where-passes}
use fastapi_url_shortener.Repositories.RefreshTokens as Repo
use fastapi_url_shortener.Repositories.Users as Users
use fastapi_url_shortener.AuthService.{
  LoginRequest, TokenResponse, new_token, issued, checked, login,
}
use fastapi_url_shortener.AuthService.Sessions.{added_token}

scalar-head :
    {A : Type 0} (y : A) (ys : List A) {x : A}
    → scalar_one_or_none (y ∷ ys) ≡ ok (some x)
    → some y ≡ some x
unfolding scalar_one_or_none
scalar-head y [] e = cc
scalar-head y (z ∷ ys) e = cc

one-first :
    {A : Type 0} (p : A → Bool) (xs : List A) {x : A}
    → scalar_one_or_none (select p xs) ≡ ok (some x)
    → first_where p xs ≡ some x
unfolding scalar_one_or_none
one-first p [] e = cc
one-first p (y ∷ xs) {x} e = elim (Bool-cases (p y)) [
  | inl here ↦ rw here (scalar-head y (select p xs) (rw here at e))
  | inr there ↦ rw there (one-first p xs (rw there at e))
]

module _ ⦃pg : Postgres⦄ ⦃f : Formats⦄ ⦃y : Crypto⦄ (laws : IsPostgres pg) (settings : Settings)
    (d : LoginRequest) (ip user_agent : Option String) (id : Uuid) (now : DateTime)
    (db : pg.Db) where
  abbrev outcome : Result TokenResponse × pg.Db
  outcome = login settings d ip user_agent id now db

  -- The row of the active user of the e-mail address and the password, who is signed in.
  pub record IsSignedIn (response : TokenResponse) (u : User) : Type 0 where
    pub known : first_where (λ v. v.email == d.email && v.is_active) (pg.users.rows db) ≡ some u
    pub email : (u.email == d.email) ≡ true
    pub active : u.is_active ≡ true
    pub password : y.verify d.password u.hashed_password ≡ true
    pub answered : response ≡ issued settings now (f.uuid_str u.id)
    pub stored :
        pg.refresh_tokens.rows outcome.1
        ≡ pg.refresh_tokens.rows db
          ++ new_token settings id now u.id response.refresh_token ip user_agent ∷ []

  login-found :
      (u : User) (response : TokenResponse)
      → Users.get_by_email d.email db ≡ (ok (some u), db)
      → u.is_active ≡ true
      → outcome.0 ≡ ok response
      → (y.verify d.password u.hashed_password ≡ true)
        × (response ≡ issued settings now (f.uuid_str u.id))
        × (pg.refresh_tokens.add
              (new_token settings id now u.id
                (issued settings now (f.uuid_str u.id)).refresh_token
                ip
                user_agent)
              db
            ≡ some outcome.1)
  unfolding login checked Repo.create Base.create
  login-found u response found active h =
      let new =
        new_token settings id now u.id (issued settings now (f.uuid_str u.id)).refresh_token ip
          user_agent in
      elim (Bool-cases (y.verify d.password u.hashed_password)) [
        | inr wrong ↦ cc (rw (found, wrong) at h)
        | inl right ↦ elim (Option-cases (pg.refresh_tokens.add new db)) [
          | inl clash ↦ cc (rw (found, right, active, clash, attempt) at h)
          | inr (db', added) ↦
              let ends : ok (issued settings now (f.uuid_str u.id)) ≡ ok response =
                rw (found, right, active, added, attempt) at h in
              (right, cc, rw (found, right, active, added, attempt))
        ]
      ]

  abbrev wanted : User → Bool
  wanted u = u.email == d.email && u.is_active

  -- What the query by e-mail address answers.
  abbrev queried : Result (Option User)
  queried = scalar_one_or_none (select wanted (pg.users.rows db))

  get_by_email-queried : Users.get_by_email d.email db ≡ (queried, db)
  unfolding Users.get_by_email Base.find_one
  get_by_email-queried = refl

  login-failed : (e : Error) → queried ≡ err e → outcome.0 ≡ err e
  unfolding login
  login-failed e failed = rw (get_by_email-queried, failed)

  login-unknown :
      queried ≡ ok none → outcome.0 ≡ err (authentication_error "Invalid email or password")
  unfolding login checked
  login-unknown unknown = rw (get_by_email-queried, unknown)

  both : (a b : Bool) → (a && b) ≡ true → (a ≡ true) × (b ≡ true)
  both a b h = ground arith

  -- A login that ends normally was made with the password of the active user whose row has the
  -- e-mail address: the response holds the tokens of that user, and the refresh token is stored for the user as the
  -- one new row.
  pub login-IsSignedIn :
      (response : TokenResponse) → outcome.0 ≡ ok response → (u : User) × IsSignedIn response u
  login-IsSignedIn response h = elim (Result-cases queried) [
    | inl (e, failed) ↦ cc (login-failed e failed, h)
    | inr (none, unknown) ↦ cc (login-unknown unknown, h)
    | inr (some u, known) ↦
        let row = one-first wanted (pg.users.rows db) {x = u} known in
        let (email, active) =
          both (u.email == d.email) u.is_active
            (first_where-passes wanted (pg.users.rows db) {x = u} row) in
        let found : Users.get_by_email d.email db ≡ (ok (some u), db) =
          rw (get_by_email-queried, known) in
        let (right, answered, went_in) = login-found u response found active h in
        (
          u,
          record {
            known = row;
            email = email;
            active = active;
            password = right;
            answered = answered;
            stored =
                rw answered
                  (added_token laws settings "" db
                    (new_token settings id now u.id
                      (issued settings now (f.uuid_str u.id)).refresh_token ip user_agent)
                    db outcome.1 went_in).1;
          },
        )
  ]
