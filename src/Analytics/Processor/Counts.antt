-- ===== src/Analytics/Processor/Counts.antt =====
-- The counts of `_flush` in app/analytics/processor.py, and the click counts of the links.
use fastapi_url_shortener.Base.{
  ℕ, ◌+◌, ◌≡◌, refl, sym, ap, ◌∙◌, List, [], ◌∷◌, map, arith, ◌==◌, nat_eq, if◌then◌else◌, any,
  count_where, update_where,
}
use fastapi_url_shortener.Core.Action.{ok}
use fastapi_url_shortener.Models.{Uuid, DateTime, DateTime, ShortUrl, ClickEvent}
use fastapi_url_shortener.Postgres.{Postgres}
use fastapi_url_shortener.Postgres.Laws.{IsPostgres}
use fastapi_url_shortener.Repositories.ShortUrls.{increment_click_count}
use fastapi_url_shortener.Analytics.Processor.{count_up, count_all, counter, increment_all}

-- What the counts say of a link.
abbrev pub counted : Uuid → List (Uuid × ℕ) → ℕ
counted i [] = 0
counted i ((j, n) ∷ counts) = (if j == i then n else 0) + counted i counts

counted-count_up :
    (i j : Uuid) (counts : List (Uuid × ℕ))
    → counted i (count_up j counts) ≡ (if j == i then 1 else 0) + counted i counts
unfolding count_up
counted-count_up i j [] = omega arith
counted-count_up i j ((k, n) ∷ counts) = ground (arith, counted-count_up i j counts)

counted-count_all :
    (i : Uuid) (counts : List (Uuid × ℕ)) (is : List Uuid)
    → counted i (count_all counts is) ≡ counted i counts + count_where (λ j. j == i) is
unfolding count_all
counted-count_all i counts [] = omega arith
counted-count_all i counts (j ∷ is) =
    omega (arith, counted-count_all i (count_up j counts) is, counted-count_up i j counts)

count_where-map :
    (i : Uuid) (es : List ClickEvent)
    → count_where (λ j. j == i) (map (λ e. e.short_url_id) es)
      ≡ count_where (λ e. e.short_url_id == i) es
count_where-map i [] = refl
count_where-map i (e ∷ es) = omega (arith, count_where-map i es)

-- `Counter` counts the events of every link.
pub counted-counter :
    (i : Uuid) (es : List ClickEvent)
    → counted i (counter (map (λ e. e.short_url_id) es)) ≡ count_where (λ e. e.short_url_id == i) es
unfolding counter
counted-counter i es =
    omega (arith, counted-count_all i [] (map (λ e. e.short_url_id) es), count_where-map i es)

-- The rows with the counts added.
abbrev pub credit : DateTime → List (Uuid × ℕ) → ShortUrl → ShortUrl
credit now counts u = record u {
  updated_at = if any (λ c. c.0 == u.id) counts then now else u.updated_at;
  click_count = u.click_count + counted u.id counts;
}

credit-cons :
    (now : DateTime) (c : Uuid × ℕ) (counts : List (Uuid × ℕ)) (urls : List ShortUrl)
    → map (credit now counts) (
        update_where
          (λ u. u.id == c.0)
          (λ u. record u { updated_at = now; click_count = u.click_count + c.1 })
          urls)
      ≡ map (credit now (c ∷ counts)) urls
credit-cons now c counts [] = refl
credit-cons now c counts (u ∷ urls) = ground (arith, credit-cons now c counts urls)

credit-nil : (now : DateTime) (urls : List ShortUrl) → map (credit now []) urls ≡ urls
credit-nil now [] = refl
credit-nil now (u ∷ urls) = ground (arith, credit-nil now urls)

module _ ⦃pg : Postgres⦄ (laws : IsPostgres pg) where
  -- One UPDATE for each link credits every row with its count, and raises nothing.
  pub rows-increment_all :
      (now : DateTime) (counts : List (Uuid × ℕ)) (db : pg.Db)
      → (pg.short_urls.rows (increment_all now counts db).1
          ≡ map (credit now counts) (pg.short_urls.rows db))
        × (pg.click_events.rows (increment_all now counts db).1 ≡ pg.click_events.rows db)
        × ((increment_all now counts db).0 ≡ ok tt)
  unfolding increment_all increment_click_count
  rows-increment_all now [] db = (sym (credit-nil now (pg.short_urls.rows db)), refl, refl)
  rows-increment_all now (c ∷ counts) db =
      let db₁ = (increment_click_count c.0 c.1 now db).1 in
      let (urls, clicks, done) = rows-increment_all now counts db₁ in
      (
        urls
            ∙ ap (map (credit now counts)) (
                laws.short_urls.rows-update (λ u. u.id == c.0)
                  (λ u. record u { updated_at = now; click_count = u.click_count + c.1 }) db)
            ∙ credit-cons now c counts (pg.short_urls.rows db),
        clicks
            ∙ laws.short_urls_apart.rows-update (λ u. u.id == c.0)
                (λ u. record u { updated_at = now; click_count = u.click_count + c.1 }) db,
        done,
      )
