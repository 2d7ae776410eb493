-- ===== src/Repositories/Analytics.antt =====
-- app/repositories/analytics.py with app/models/analytics_snapshot.py, over the table as a
-- parameter: nothing else in the program uses it.
pub mod Upsert
use fastapi_url_shortener.Base.{
  ℕ, ◌*◌, ◌-◌, Bool, ◌&&◌, not, any, Option, none, some, List, [], ◌∷◌, leb, ◌==◌, nat_eq, select,
}
use fastapi_url_shortener.Core.Action.{Action, ◌>>=◌}
use fastapi_url_shortener.Formats.{JsonObject}
use fastapi_url_shortener.Models.{Uuid, ShortUrl}
use fastapi_url_shortener.Postgres.{Table}
use fastapi_url_shortener.Repositories.BaseRepository.{find_one, create, update}
use fastapi_url_shortener.Repositories.Query.{order_by}

-- The columns of `analytics_snapshots`, less `created_at` and `updated_at`, which nothing here reads.
-- A date is the number of its day.
pub record AnalyticsSnapshot : Type 0 where
  pub id : Uuid
  pub short_url_id : Uuid
  pub snapshot_date : ℕ
  pub total_clicks : ℕ
  pub unique_visitors : ℕ
  pub country_data : JsonObject
  pub browser_data : JsonObject
  pub os_data : JsonObject
  pub device_data : JsonObject
  pub referrer_data : JsonObject

-- A new instance, with the defaults of the columns.
abbrev pub new_snapshot : Uuid → Uuid → ℕ → AnalyticsSnapshot
new_snapshot new_id url_id day = record {
  id = new_id;
  short_url_id = url_id;
  snapshot_date = day;
  total_clicks = 0;
  unique_visitors = 0;
  country_data = [];
  browser_data = [];
  os_data = [];
  device_data = [];
  referrer_data = [];
}

-- `**kwargs`: the columns that the caller gives.
pub record SnapshotFields : Type 0 where
  pub total_clicks : Option ℕ
  pub unique_visitors : Option ℕ
  pub country_data : Option JsonObject
  pub browser_data : Option JsonObject
  pub os_data : Option JsonObject
  pub device_data : Option JsonObject
  pub referrer_data : Option JsonObject

abbrev pub if_given : {A : Type 0} → Option A → A → A
if_given none old = old
if_given (some new) old = new

abbrev pub set_snapshot : SnapshotFields → AnalyticsSnapshot → AnalyticsSnapshot
set_snapshot k s = record s {
  total_clicks = if_given k.total_clicks s.total_clicks;
  unique_visitors = if_given k.unique_visitors s.unique_visitors;
  country_data = if_given k.country_data s.country_data;
  browser_data = if_given k.browser_data s.browser_data;
  os_data = if_given k.os_data s.os_data;
  device_data = if_given k.device_data s.device_data;
  referrer_data = if_given k.referrer_data s.referrer_data;
}

-- The row of the link and the day.
abbrev pub is_snapshot : Uuid → ℕ → AnalyticsSnapshot → Bool
is_snapshot url_id day s = (s.short_url_id == url_id) && (s.snapshot_date == day)

-- The primary key, `uq_snapshot_url_date` and the foreign key.
unfoldable pub admits_snapshot : List ShortUrl → List AnalyticsSnapshot → AnalyticsSnapshot → Bool
admits_snapshot urls rows s =
    not (any (λ v. v.id == s.id) rows)
    && not (any (is_snapshot s.short_url_id s.snapshot_date) rows)
    && any (λ v. v.id == s.short_url_id) urls

module _ {Db : Type 0} (t : Table Db AnalyticsSnapshot) where
  unfoldable pub get_by_url_and_date : Uuid → ℕ → Action Db (Option AnalyticsSnapshot)
  unfolding find_one
  get_by_url_and_date url_id day = find_one t (is_snapshot url_id day)

  -- `get_range` on the day `today`
  unfoldable pub get_range : Uuid → ℕ → ℕ → Db → List AnalyticsSnapshot
  get_range url_id days today db =
      order_by (λ s. s.snapshot_date)
        (select (λ s. s.short_url_id == url_id && leb (today - days) s.snapshot_date) (t.rows db))

  abbrev pub write :
      Uuid → Uuid → ℕ → SnapshotFields → Option AnalyticsSnapshot → Action Db AnalyticsSnapshot
  write new_id url_id day kwargs (some snapshot) =
      update t (λ s. s.id) snapshot (set_snapshot kwargs)
  write new_id url_id day kwargs none =
      create t (set_snapshot kwargs (new_snapshot new_id url_id day))

  -- `upsert`, where a new row would get the id `new_id`
  unfoldable pub upsert : Uuid → Uuid → ℕ → SnapshotFields → Action Db AnalyticsSnapshot
  unfolding get_by_url_and_date create update
  upsert new_id url_id day kwargs =
      get_by_url_and_date url_id day >>= write new_id url_id day kwargs
