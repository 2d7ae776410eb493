-- ===== src/Core/World.antt =====
-- The state that a request handler works on: the database as its session sees it, and Redis.
use fastapi_url_shortener.Core.Action.{Action}
use fastapi_url_shortener.Postgres.{Postgres}
use fastapi_url_shortener.Redis.{Redis}

pub record World (pg : Postgres) (r : Redis) : Type 0 where
  pub db : pg.Db
  pub store : r.Store

module _ ⦃pg : Postgres⦄ ⦃r : Redis⦄ {A : Type 0} where
  abbrev pub on_db : Action pg.Db A → Action (World pg r) A
  on_db m w = let (a, db') = m w.db in (a, record w { db = db' })

  abbrev pub on_store : Action r.Store A → Action (World pg r) A
  on_store m w = let (a, store') = m w.store in (a, record w { store = store' })
