-- ===== src/Repositories/BaseRepository.antt =====
-- app/repositories/base.py, over any table whose rows have an id.
use fastapi_url_shortener.Base.{ℕ, Bool, Option, List, ◌==◌, nat_eq, length, select}
use fastapi_url_shortener.Core.Errors.{dbapi_error}
use fastapi_url_shortener.Core.Action.{Action, pure, reads, modify, attempt, ◌>>◌}
use fastapi_url_shortener.Models.{Uuid}
use fastapi_url_shortener.Postgres.{Table}
use fastapi_url_shortener.Repositories.Query.{scalar_one_or_none, offset_limit}

module _ {Db Row : Type 0} (t : Table Db Row) where
  -- `select(model).where(p)` with `scalar_one_or_none()`
  unfoldable pub find_one : (Row → Bool) → Action Db (Option Row)
  find_one p = reads (λ db. scalar_one_or_none (select p (t.rows db)))

  unfoldable pub get_all : ℕ → ℕ → Db → List Row × ℕ
  get_all offset limit db = (offset_limit offset limit (t.rows db), length (t.rows db))

  unfoldable pub create : Row → Action Db Row
  create r = attempt (t.add r) dbapi_error >> pure r

  module _ (id_of : Row → Uuid) where
    unfoldable pub get_by_id : Uuid → Action Db (Option Row)
    unfolding find_one
    get_by_id id = find_one (λ r. id_of r == id)

    -- The changed attributes are flushed to the row of the instance, and the row as it then is
    -- comes back.
    unfoldable pub update : Row → (Row → Row) → Action Db Row
    update r set = modify (t.update (λ v. id_of v == id_of r) set) >> pure (set r)

    unfoldable pub delete : Row → Action Db Unit
    delete r = modify (t.delete (λ v. id_of v == id_of r))
