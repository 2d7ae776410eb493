-- ===== src/Tests/Snapshots.antt =====
-- Daily snapshots at a concrete table.
use fastapi_url_shortener.Base.{
  not, none, some, List, [], ◌∷◌, ◌++◌, if◌then◌else◌, select, update_where, nat_eq,
}
use fastapi_url_shortener.Postgres.{Table}
use fastapi_url_shortener.Repositories.Analytics.{
  AnalyticsSnapshot, SnapshotFields, new_snapshot, admits_snapshot,
}
use fastapi_url_shortener.Tests.Data.{link}

-- The links stay as they are.
abbrev memory_snapshots : Table (List AnalyticsSnapshot) AnalyticsSnapshot
memory_snapshots = record {
  rows = λ d. d;
  add = λ s d. if admits_snapshot (link ∷ []) d s then some (d ++ s ∷ []) else none;
  update = λ p f d. update_where p f d;
  delete = λ p d. select (λ s. not (p s)) d;
}

abbrev stored_snapshots : List AnalyticsSnapshot
stored_snapshots = new_snapshot 41 2 20000 ∷ new_snapshot 42 2 20001 ∷ []

abbrev seven_clicks : SnapshotFields
seven_clicks = record {
  total_clicks = some 7;
  unique_visitors = none;
  country_data = none;
  browser_data = none;
  os_data = none;
  device_data = none;
  referrer_data = none;
}
