-- ===== src/Repositories/Analytics/Upsert.antt =====
-- `upsert` keeps at most one snapshot of each link and day.
use mathlib.Core.Option
use fastapi_url_shortener.Base.{
  ℕ, ◌≤◌, ◌≡◌, ◌⊎◌, true, false, ◌&&◌, any, Option, none, some, List, ◌==◌, nat_eq, if◌then◌else◌,
  count_where,
}
use fastapi_url_shortener.Core.Errors.{Error, dbapi_error}
use fastapi_url_shortener.Core.Action.{Result, ok, err}
use fastapi_url_shortener.Models.{Uuid, ShortUrl}
use fastapi_url_shortener.Postgres.{Table}
use fastapi_url_shortener.Repositories.Query.{first_where}
use fastapi_url_shortener.Repositories.Analytics.{
  AnalyticsSnapshot, SnapshotFields, new_snapshot, set_snapshot, is_snapshot,
}

-- The table as a map from links and days.
abbrev pub snapshot_of : Uuid → ℕ → List AnalyticsSnapshot → Option AnalyticsSnapshot
snapshot_of url_id day = first_where (is_snapshot url_id day)

-- At most one row of each link and day, and of each id.
pub record IsKeyed (rows : List AnalyticsSnapshot) : Type 0 where
  pub unique_keys : (u : Uuid) (d : ℕ) → count_where (is_snapshot u d) rows ≤ 1
  pub unique_ids : (i : Uuid) → count_where (λ s. s.id == i) rows ≤ 1

-- What `upsert` promises: a map from links and days that changes at one key.
module _ {Db : Type 0} (t : Table Db AnalyticsSnapshot) (links : Db → List ShortUrl)
    (new_id url_id : Uuid) (day : ℕ) (kwargs : SnapshotFields) (db : Db) where
  -- The instance that `upsert` sets the fields of.
  abbrev pub base_of : Option AnalyticsSnapshot → AnalyticsSnapshot
  base_of none = new_snapshot new_id url_id day
  base_of (some s) = s

  pub record IsUpserted (s : AnalyticsSnapshot) (db' : Db) : Type 0 where
    pub set : s ≡ set_snapshot kwargs (base_of (snapshot_of url_id day (t.rows db)))
    pub keyed : IsKeyed (t.rows db')
    pub at :
        (u : Uuid) (d : ℕ)
        → snapshot_of u d (t.rows db')
          ≡ (if (url_id == u) && (day == d) then some s else snapshot_of u d (t.rows db))

  pub record IsRefused (e : Error) (db' : Db) : Type 0 where
    pub error : e ≡ dbapi_error
    pub unchanged : db' ≡ db
    pub absent : snapshot_of url_id day (t.rows db) ≡ none
    pub refused :
        (any (λ v. v.id == new_id) (t.rows db) ≡ true)
        ⊎ (any (λ v. v.id == url_id) (links db) ≡ false)

  abbrev pub Upserted : Result AnalyticsSnapshot × Db → Type 0
  Upserted (ok s, db') = IsUpserted s db'
  Upserted (err e, db') = IsRefused e db'
