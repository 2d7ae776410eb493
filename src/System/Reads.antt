-- ===== src/System/Reads.antt =====
-- The work on the database that leaves the links as they are: that of the dependencies and of the
-- accounts.
use fastapi_url_shortener.Base.{
  ◌≡◌, refl, ◌∙◌, Option, none, some, String, inl, inr, Bool-cases, Option-cases, ◌==◌, string_eq,
  option_eq,
}
use fastapi_url_shortener.Core.Errors.{Error}
use fastapi_url_shortener.Core.Action.{
  Result-cases, Result, ok, err, Action, resume, recover, try_except, or_raise, pure, ◌>>=◌,
}
use fastapi_url_shortener.Core.Security.{Claims, Crypto, decode_token}
use fastapi_url_shortener.Core.Settings.{Settings}
use fastapi_url_shortener.Formats.{Formats}
use fastapi_url_shortener.Models.{DateTime, User}
use fastapi_url_shortener.Postgres.{Postgres}
use fastapi_url_shortener.System.Sound.{shown}
use fastapi_url_shortener.Repositories.Users as Users
use fastapi_url_shortener.Repositories.BaseRepository as Base
use fastapi_url_shortener.Dependencies.{
  filled, payload_of, active, get_current_user, get_optional_user,
}

module _ ⦃pg : Postgres⦄ where
  module _ {A : Type 0} where
    abbrev pub Keeps : Action pg.Db A → Type 0
    Keeps m = (db : pg.Db) → shown (m db).1 ≡ shown db

    pub Keeps-raise : (a : Result A) → Keeps (λ db. (a, db))
    Keeps-raise a db = refl

    pub Keeps-or_raise : (o : Option A) (e : Error) → Keeps (or_raise o e)
    Keeps-or_raise none e db = refl
    Keeps-or_raise (some a) e db = refl

    recovered :
        (st : Result A × pg.Db) (h : Error → Action pg.Db A)
        → ((e : Error) → Keeps (h e))
        → shown (recover st h).1 ≡ shown st.1
    recovered (ok a, db) h keep = refl
    recovered (err e, db) h keep = keep e db

    pub Keeps-try_except :
        (m : Action pg.Db A) (h : Error → Action pg.Db A)
        → Keeps m
        → ((e : Error) → Keeps (h e))
        → Keeps (try_except m h)
    Keeps-try_except m h keep handled db = recovered (m db) h handled ∙ keep db

  module _ {A B : Type 0} where
    resumed :
        (st : Result A × pg.Db) (k : A → Action pg.Db B)
        → ((a : A) → Keeps (k a))
        → shown (resume st k).1 ≡ shown st.1
    resumed (ok a, db) k keep = keep a db
    resumed (err e, db) k keep = refl

    pub Keeps-bind :
        (m : Action pg.Db A) (k : A → Action pg.Db B)
        → Keeps m
        → ((a : A) → Keeps (k a))
        → Keeps (m >>= k)
    Keeps-bind m k keep rest db = resumed (m db) k rest ∙ keep db

  Keeps-payload_of : (a : Result Claims) → Keeps (payload_of a)
  Keeps-payload_of (ok c) db = refl
  Keeps-payload_of (err e) db = refl

  Keeps-active : (u : Option User) → Keeps (active u)
  Keeps-active none db = refl
  Keeps-active (some u) db = elim (Bool-cases u.is_active) [ inl on ↦ rw on | inr off ↦ rw off ]

  module _ ⦃f : Formats⦄ ⦃y : Crypto⦄ (settings : Settings) (now : DateTime) where
    pub Keeps-get_current_user : (t : Option String) → Keeps (get_current_user settings now t)
    unfolding get_current_user Users.get_by_id Base.get_by_id Base.find_one
    Keeps-get_current_user none = λ db. refl
    Keeps-get_current_user (some token) = λ db.
        elim (Result-cases (decode_token settings now token)) [
          | inl (e, bad) ↦ rw bad refl
          | inr (c, good) ↦ elim (Bool-cases (c.type == some "access")) [
            | inr other ↦ rw (good, other) refl
            | inl kind ↦ elim (Option-cases (filled c.sub)) [
              | inl nobody ↦ rw (good, kind, nobody) refl
              | inr (s, somebody) ↦ elim (Option-cases (f.uuid_parse s)) [
                | inl malformed ↦ rw (good, kind, somebody, malformed) refl
                | inr (id, parsed) ↦
                    rw (good, kind, somebody, parsed)
                      (Keeps-bind (Users.get_by_id id) active (λ d. refl) Keeps-active db)
              ]
            ]
          ]
        ]

    pub Keeps-get_optional_user : (t : Option String) → Keeps (get_optional_user settings now t)
    unfolding get_optional_user
    Keeps-get_optional_user none = λ db. refl
    Keeps-get_optional_user (some token) =
        Keeps-try_except (get_current_user settings now (some token) >>= λ u. pure (some u))
          (λ e. pure none)
          (Keeps-bind (get_current_user settings now (some token)) (λ u. pure (some u))
            (Keeps-get_current_user (some token)) (λ u d. refl))
          (λ e d. refl)
