-- ===== src/Repositories/Users.antt =====
-- app/repositories/user.py
use fastapi_url_shortener.Base.{String, Bool, ◌&&◌, Option, ◌==◌, nat_eq, string_eq}
use fastapi_url_shortener.Core.Action.{Action, pure, ◌>>=◌}
use fastapi_url_shortener.Models.{Uuid, User}
use fastapi_url_shortener.Postgres.{Postgres}
use fastapi_url_shortener.Repositories.BaseRepository as Base
use fastapi_url_shortener.Repositories.ShortUrls.{is_some}

module _ ⦃pg : Postgres⦄ where
  unfoldable pub get_by_id : Uuid → Action pg.Db (Option User)
  unfolding Base.get_by_id
  get_by_id = Base.get_by_id pg.users (λ u. u.id)

  unfoldable pub create : User → Action pg.Db User
  unfolding Base.create
  create = Base.create pg.users

  unfoldable pub get_by_email : String → Action pg.Db (Option User)
  unfolding Base.find_one
  get_by_email email = Base.find_one pg.users (λ u. u.email == email && u.is_active)

  unfoldable pub email_exists : String → Action pg.Db Bool
  unfolding Base.find_one
  email_exists email = do
    found ← Base.find_one pg.users (λ u. u.email == email)
    pure (is_some found)
