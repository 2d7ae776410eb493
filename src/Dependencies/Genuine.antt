-- ===== src/Dependencies/Genuine.antt =====
-- The users that `get_current_user` and `get_optional_user` of app/dependencies/auth.py let in.
use fastapi_url_shortener.Base.{
  ◌≤◌, String, ◌≡◌, refl, ap, Bool, true, Option, none, some, List, arith, ◌==◌, nat_eq, string_eq,
  option_eq, if◌then◌else◌, inl, inr, Bool-cases, Option-cases, count_where,
}
use fastapi_url_shortener.Core.Action.{Action, Result, ok, err, Result-cases}
use fastapi_url_shortener.Core.Security.{Crypto, Claims, decode_token}
use fastapi_url_shortener.Core.Settings.{Settings}
use fastapi_url_shortener.Formats.{Formats}
use fastapi_url_shortener.Models.{Uuid, DateTime, User}
use fastapi_url_shortener.Postgres.{Postgres}
use fastapi_url_shortener.Repositories.BaseRepository as Base
use fastapi_url_shortener.Repositories.Query.{first_where, scalar_one_or_none-select}
use fastapi_url_shortener.Repositories.Users as Users
use fastapi_url_shortener.Dependencies.{active, filled, get_current_user}

filled-some : (o : Option String) (s : String) → filled o ≡ some s → o ≡ some s
filled-some none s h = cc
filled-some (some t) s h = ground arith

if_true : {A : Type 0} (b : Bool) (x z : A) → b ≡ true → (if b then x else z) ≡ x
if_true b x z h = ground arith

pub active_on :
    ⦃pg : Postgres⦄ (u : User) (db : pg.Db) → u.is_active ≡ true → active (some u) db ≡ (ok u, db)
active_on ⦃pg⦄ u db on = ap (λ (m : Action pg.Db User). m db) (if_true u.is_active _ _ on)

-- The primary key of `users`.
abbrev pub HasUniqueIds : List User → Type 0
HasUniqueIds users = (i : Uuid) → count_where (λ u. u.id == i) users ≤ 1

module _ ⦃pg : Postgres⦄ (db : pg.Db) (unique : HasUniqueIds (pg.users.rows db)) where
  pub user_by_id :
      (id : Uuid)
      → Users.get_by_id id db ≡ (ok (first_where (λ u. u.id == id) (pg.users.rows db)), db)
  unfolding Users.get_by_id Base.get_by_id Base.find_one
  user_by_id id = rw (scalar_one_or_none-select (λ u. u.id == id) (pg.users.rows db) (unique id))

module _ ⦃pg : Postgres⦄ ⦃f : Formats⦄ ⦃y : Crypto⦄ (settings : Settings) (now : DateTime)
    (db : pg.Db) (unique : HasUniqueIds (pg.users.rows db)) where
  -- What a token has to be, to stand for a user.
  pub record IsGenuine (token : String) (u : User) : Type 0 where
    pub claims : Claims
    pub decoded : decode_token settings now token ≡ ok claims
    pub kind : (claims.type == some "access") ≡ true
    pub id : Uuid
    pub subject : String
    pub names : claims.sub ≡ some subject
    pub parsed : f.uuid_parse subject ≡ some id
    pub known : first_where (λ v. v.id == id) (pg.users.rows db) ≡ some u
    pub active : u.is_active ≡ true

  -- A user only for a genuine token, and no change of the database.
  abbrev pub Answer : String → Result User × pg.Db → Type 0
  Answer token (ok u, db') = (db' ≡ db) × IsGenuine token u
  Answer token (err e, db') = db' ≡ db

  named :
      (token : String) (c : Claims) (s : String) (id : Uuid)
      → decode_token settings now token ≡ ok c
      → (c.type == some "access") ≡ true
      → filled c.sub ≡ some s
      → f.uuid_parse s ≡ some id
      → Answer token (get_current_user settings now (some token) db)
  unfolding get_current_user
  named token c s id good kind somebody parsed =
      elim (Option-cases (first_where (λ v. v.id == id) (pg.users.rows db))) [
        | inl missing ↦ rw (good, kind, somebody, parsed, user_by_id db unique id, missing) refl
        | inr (u, known) ↦ elim (Bool-cases u.is_active) [
          | inl on ↦
              rw (good, kind, somebody, parsed, user_by_id db unique id, known, active_on u db on)
                (
                  refl,
                  record {
                    claims = c;
                    decoded = good;
                    kind = kind;
                    id = id;
                    subject = s;
                    names = filled-some c.sub s somebody;
                    parsed = parsed;
                    known = known;
                    active = on;
                  },
                )
          | inr off ↦ rw (good, kind, somebody, parsed, user_by_id db unique id, known, off) refl
        ]
      ]

  -- `get_current_user` changes nothing, and lets in only the holder of a token that decodes at the
  -- time, is an access token and names an active user, whom it returns. Ids are unique.
  pub get_current_user_lem :
      (token : String) → Answer token (get_current_user settings now (some token) db)
  unfolding get_current_user
  get_current_user_lem token = elim (Result-cases (decode_token settings now token)) [
    | inl (e, bad) ↦ rw bad refl
    | inr (c, good) ↦ elim (Bool-cases (c.type == some "access")) [
      | inr other ↦ rw (good, other) refl
      | inl kind ↦ elim (Option-cases (filled c.sub)) [
        | inl nobody ↦ rw (good, kind, nobody) refl
        | inr (s, somebody) ↦ elim (Option-cases (f.uuid_parse s)) [
          | inl malformed ↦ rw (good, kind, somebody, malformed) refl
          | inr (id, parsed) ↦ named token c s id good kind somebody parsed
        ]
      ]
    ]
  ]
