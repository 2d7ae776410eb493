-- ===== src/AnalyticsService/Cached.antt =====
-- `get_summary` of app/services/analytics.py, asked again.
use fastapi_url_shortener.Base.{
  ℕ, ◌+◌, ◌*◌, ◌⊎◌, false, ◌<◌, String, ◌≡◌, refl, ap, ◌∙◌, true, Option, none, some, select, ◌==◌,
  string_eq, nat_eq, ==_refl, inl, inr, Bool-cases, Option-cases,
}
use fastapi_url_shortener.Core.Action.{ok, Result-cases}
use fastapi_url_shortener.Core.Settings.{Settings}
use fastapi_url_shortener.Core.World.{World}
use fastapi_url_shortener.Models.{DateTime, second}
use fastapi_url_shortener.Postgres.{Postgres}
use fastapi_url_shortener.Redis.{Redis}
use fastapi_url_shortener.Redis.Laws.{IsTextStore, is_past}
use fastapi_url_shortener.Redis.Deadlines.{setex-alive}
use fastapi_url_shortener.Formats.{NestedJson, IsNestedJson}
use fastapi_url_shortener.Repositories.BaseRepository as Base
use fastapi_url_shortener.Repositories.Query.{scalar_one_or_none}
use fastapi_url_shortener.Repositories.ShortUrls.{find_one, get_by_short_code}
use fastapi_url_shortener.Cache.AnalyticsCache as Cache
use fastapi_url_shortener.Cache.AnalyticsCache.{summary_key, loaded_summary}
use fastapi_url_shortener.AnalyticsService.{
  AnalyticsSummary, Rounding, SummaryModel, cached_or, compute_summary, get_summary, summarize,
}

-- A summary that is dumped reads as itself, and is no empty object.
pub record IsSummaryModel {j : NestedJson} (m : SummaryModel j) : Type 0 where
  pub construct-model_dump : (s : AnalyticsSummary) → m.construct (m.model_dump s) ≡ some s
  pub truth-model_dump : (s : AnalyticsSummary) → m.truth (m.model_dump s) ≡ true

ok-injective : {A : Type 0} {x y : A} → ok x ≡ ok y → x ≡ y
ok-injective h = cc

module _ ⦃pg : Postgres⦄ ⦃r : Redis⦄ ⦃j : NestedJson⦄ (texts : IsTextStore r)
    (json : IsNestedJson j) (m : SummaryModel j) (model : IsSummaryModel m) (o : Rounding)
    (settings : Settings) (open_cache : 0 < settings.analytics_cache_ttl) (code : String)
    (s : AnalyticsSummary) where
  -- The cache answers with `s`.
  Answers : r.Store → Type 0
  Answers store =
      (d : j.Dict) × (loaded_summary j (r.get (summary_key code) store) ≡ ok (some d))
      × (m.truth d ≡ true)
      × (m.construct d ≡ some s)

  answered :
      (now : DateTime) (days : ℕ) (w : World pg r)
      → Answers w.store
      → get_summary m o settings now code days w ≡ (ok s, w)
  unfolding get_summary Cache.get_summary Answers
  answered now days w (d, loaded, truth, made) = rw (loaded, truth, made) refl

  stored-Answers :
      (store : r.Store)
      → Answers
          (r.setex (summary_key code) settings.analytics_cache_ttl (j.dumps (m.model_dump s)) store)
  unfolding Answers
  stored-Answers store = (
    m.model_dump s,
    rw
        (
          texts.get-setex (summary_key code) (summary_key code) (j.dumps (m.model_dump s))
              settings.analytics_cache_ttl store open_cache,
          ==_refl (summary_key code),
          json.dumps_nonempty (m.model_dump s),
          json.loads-dumps (m.model_dump s),
        )
        refl,
    model.truth-model_dump s,
    model.construct-model_dump s,
  )

  computed-Answers :
      (now : DateTime) (days : ℕ) (w : World pg r)
      → (compute_summary m o settings now code days w).0 ≡ ok s
      → Answers (compute_summary m o settings now code days w).1.store
  unfolding compute_summary Cache.set_summary get_by_short_code find_one Base.find_one
  computed-Answers now days w h =
      let rows = select (λ u. u.short_code == code) (pg.short_urls.rows w.db) in
      elim (Result-cases (scalar_one_or_none rows)) [
        | inl (e, failed) ↦ cc (rw failed at h)
        | inr (none, missing) ↦ cc (rw missing at h)
        | inr (some u, found) ↦
            let same : summarize o now code days u w.db ≡ s = ok-injective (rw found at h) in
            rw (found, same) (stored-Answers w.store)
      ]

  cached-Answers :
      (now : DateTime) (days : ℕ) (w : World pg r) (c : Option j.Dict)
      → loaded_summary j (r.get (summary_key code) w.store) ≡ ok c
      → (cached_or m o settings now c (compute_summary m o settings now code days) w).0 ≡ ok s
      → Answers
          (cached_or m o settings now c (compute_summary m o settings now code days) w).1.store
  unfolding Answers
  cached-Answers now days w none loaded h = computed-Answers now days w h
  cached-Answers now days w (some d) loaded h = elim (Bool-cases (m.truth d)) [
    | inr empty ↦ rw empty (computed-Answers now days w (rw empty at h))
    | inl filled ↦ elim (Option-cases (m.construct d)) [
      | inl malformed ↦ cc (rw (filled, malformed) at h)
      | inr (x, made) ↦
          let same : x ≡ s = ok-injective (rw (filled, made) at h) in
          rw (filled, made) (d, loaded, filled, made ∙ ap some same)
    ]
  ]

  asked-Answers :
      (now : DateTime) (days : ℕ) (w : World pg r)
      → (get_summary m o settings now code days w).0 ≡ ok s
      → Answers (get_summary m o settings now code days w).1.store
  unfolding get_summary Cache.get_summary
  asked-Answers now days w h =
      elim (Result-cases (loaded_summary j (r.get (summary_key code) w.store))) [
        | inl (e, failed) ↦ cc (rw failed at h)
        | inr (c, loaded) ↦ rw loaded (cached-Answers now days w c loaded (rw loaded at h))
      ]

  -- The store after the first question, and some time later.
  abbrev pub asked : DateTime → ℕ → World pg r → r.Store
  asked now days w = (get_summary m o settings now code days w).1.store

  computed-store :
      (now : DateTime) (days : ℕ) (w : World pg r)
      → (compute_summary m o settings now code days w).0 ≡ ok s
      → (compute_summary m o settings now code days w).1.store
        ≡ r.setex (summary_key code) settings.analytics_cache_ttl (j.dumps (m.model_dump s)) w.store
  unfolding compute_summary Cache.set_summary get_by_short_code find_one Base.find_one
  computed-store now days w h =
      let rows = select (λ u. u.short_code == code) (pg.short_urls.rows w.db) in
      elim (Result-cases (scalar_one_or_none rows)) [
        | inl (e, failed) ↦ cc (rw failed at h)
        | inr (none, missing) ↦ cc (rw missing at h)
        | inr (some u, found) ↦
            let same : summarize o now code days u w.db ≡ s = ok-injective (rw found at h) in
            rw (found, same) refl
      ]

  -- The entry has not reached its deadline: either its deadline says so, or the first question found
  -- no entry, and its time to live is not over.
  abbrev pub Alive : DateTime → ℕ → World pg r → ℕ → Type 0
  Alive now days w d =
      (is_past (r.expiretime (summary_key code) (asked now days w)) (r.clock (asked now days w) + d)
        ≡ false)
      ⊎ ((r.get (summary_key code) w.store ≡ none) × (d < settings.analytics_cache_ttl * second))

  missed-store :
      (now : DateTime) (days : ℕ) (w : World pg r)
      → r.get (summary_key code) w.store ≡ none
      → (get_summary m o settings now code days w).0 ≡ ok s
      → (get_summary m o settings now code days w).1.store
        ≡ r.setex (summary_key code) settings.analytics_cache_ttl (j.dumps (m.model_dump s)) w.store
  unfolding get_summary Cache.get_summary
  missed-store now days w miss h = rw miss (computed-store now days w (rw miss at h))

  still_there :
      (now : DateTime) (days : ℕ) (w : World pg r) (d : ℕ)
      → (get_summary m o settings now code days w).0 ≡ ok s
      → Alive now days w d
      → is_past
          (r.expiretime (summary_key code) (asked now days w))
          (r.clock (asked now days w) + d)
        ≡ false
  still_there now days w d h (inl alive) = alive
  still_there now days w d h (inr (miss, within)) = rw (missed-store now days w miss h) (
      setex-alive texts (summary_key code) (j.dumps (m.model_dump s)) settings.analytics_cache_ttl d
        w.store open_cache within)

  waited-Answers :
      (store : r.Store) (d : ℕ)
      → is_past (r.expiretime (summary_key code) store) (r.clock store + d) ≡ false
      → Answers store
      → Answers (r.wait d store)
  unfolding Answers
  waited-Answers store d alive (x, loaded, truth, made) =
      (x, rw (texts.get-wait (summary_key code) d store, alive) loaded, truth, made)

  -- Once a summary has been returned, a later question within the life of the cache entry is
  -- answered with the same summary, whatever period is asked for and whatever the database then
  -- holds, and changes nothing. Where the first question found no entry, that is the time to live
  -- from then on.
  pub get_summary-again :
      (now later : DateTime) (days period d : ℕ) (w : World pg r) (db : pg.Db)
      → (get_summary m o settings now code days w).0 ≡ ok s
      → Alive now days w d
      → let w' : World pg r = record { db = db; store = r.wait d (asked now days w) } in
        get_summary m o settings later code period w' ≡ (ok s, w')
  get_summary-again now later days period d w db h alive =
      let w' : World pg r = record { db = db; store = r.wait d (asked now days w) } in
      answered later period w' (
        waited-Answers (asked now days w) d (still_there now days w d h alive)
          (asked-Answers now days w h))
