-- ===== src/System/Rounds.antt =====
-- A round of the click worker, and time that passes, between two sound states.
use fastapi_url_shortener.Base.{
  ℕ, ◌≡◌, refl, sym, ap, ◌∙◌, Bool, true, some, All, any, List, [], ◌∷◌, map, arith, ◌==◌, nat_eq,
  inl, inr, Bool-cases, update_where,
}
use fastapi_url_shortener.Core.Action.{Result, ok, err, resume}
use fastapi_url_shortener.Core.Settings.{Settings}
use fastapi_url_shortener.Core.World.{World}
use fastapi_url_shortener.Models.{Uuid, DateTime, ShortUrl, ClickEvent, admits_click_event}
use fastapi_url_shortener.Core.Session.{with_session}
use fastapi_url_shortener.Repositories.ShortUrls.Counted.{IsCounted, append-IsCounted}
use fastapi_url_shortener.Postgres.{Postgres}
use fastapi_url_shortener.Postgres.Laws.{IsPostgres, all_admitted}
use fastapi_url_shortener.Redis.{Redis}
use fastapi_url_shortener.Redis.Laws.{IsTextStore, IsTypedStore}
use fastapi_url_shortener.Formats.{Formats, JsonObject}
use fastapi_url_shortener.Repositories.Query.{first_where}
use fastapi_url_shortener.Repositories.ShortUrls.{has_code}
use fastapi_url_shortener.Repositories.ShortUrls.WellFormed.{update-IsWellFormed}
use fastapi_url_shortener.Cache.AnalyticsCache.{pop_events, queue_length}
use fastapi_url_shortener.UrlService.{serialize}
use fastapi_url_shortener.Analytics.Processor.{
  counter, persist, parse_events, flush_events, flush, run_once,
}
use fastapi_url_shortener.Analytics.Processor.Counts.{credit}
use fastapi_url_shortener.Analytics.Processor.Flush.{
  accepted, CountsAgree, IsPersisted, persist-accepted, persist-CountsAgree, persist_refused,
}
use fastapi_url_shortener.Analytics.Processor.Queue.{recovered-state}
use fastapi_url_shortener.System.Sound.{IsSound, IsSound-Fewer}
use fastapi_url_shortener.System.Stores.{pop_events-Same, wait-Fewer}

map-update_where : {A : Type 0} (g : A → A) (xs : List A) → update_where (λ _. true) g xs ≡ map g xs
map-update_where g [] = refl
map-update_where g (x ∷ xs) = rw (map-update_where g xs)

first_where-map :
    {A : Type 0} (h : A → Bool) (g : A → A) (xs : List A) {x : A}
    → ((y : A) → h (g y) ≡ h y)
    → first_where h xs ≡ some x
    → first_where h (map g xs) ≡ some (g x)
first_where-map h g [] same e = cc
first_where-map h g (y ∷ xs) {x} same e =
    ground (arith, same y, first_where-map h g xs {x = x} same)

-- The clicks that the database accepts are of links that are there.
accepted-known :
    (urls : List ShortUrl) (es : List ClickEvent)
    → all_admitted (admits_click_event urls) es ≡ true
    → All (λ e. any (λ v. v.id == e.short_url_id) urls ≡ true) es
unfolding admits_click_event
accepted-known urls [] h = tt
accepted-known urls (e ∷ es) h = elim (Bool-cases (admits_click_event urls e)) [
  | inl good ↦ (ground arith, accepted-known urls es (rw good at h))
  | inr bad ↦ cc (rw bad at h)
]

-- What a change of links must leave alone so that their cached copies stay right.
record IsSilent (f : Formats) (g : ShortUrl → ShortUrl) : Type 0 where
  id : (u : ShortUrl) → (g u).id ≡ u.id
  short_code : (u : ShortUrl) → (g u).short_code ≡ u.short_code
  custom_alias : (u : ShortUrl) → (g u).custom_alias ≡ u.custom_alias
  is_active : (u : ShortUrl) → (g u).is_active ≡ u.is_active
  payload : (u : ShortUrl) → serialize f (g u) ≡ serialize f u

credit-IsSilent :
    (f : Formats) (now : DateTime) (counts : List (Uuid × ℕ)) → IsSilent f (credit now counts)
unfolding serialize
credit-IsSilent f now counts = record {
  id = λ u. refl;
  short_code = λ u. refl;
  custom_alias = λ u. refl;
  is_active = λ u. refl;
  payload = λ u. refl;
}

module _ ⦃pg : Postgres⦄ ⦃r : Redis⦄ ⦃f : Formats⦄ where
  IsSound-map :
      (g : ShortUrl → ShortUrl) (db' : pg.Db) (w : World pg r)
      → IsSilent f g
      → pg.short_urls.rows db' ≡ map g (pg.short_urls.rows w.db)
      → IsCounted (pg.short_urls.rows db') (pg.click_events.rows db')
      → IsSound f w
      → IsSound f (record w { db = db' })
  unfolding has_code
  IsSound-map g db' w silent rows counted sound = record {
    counted = counted;
    well_formed =
        rw (rows, ← map-update_where g (pg.short_urls.rows w.db))
          (update-IsWellFormed (pg.short_urls.rows w.db) sound.well_formed (λ _. true) g silent.id
            silent.short_code silent.custom_alias);
    coherent = record {
      at = λ c raw hit.
          let (u, link, same, active) = sound.coherent.at c raw hit in
          (
            g u,
            rw rows (
                first_where-map (has_code c) g (pg.short_urls.rows w.db)
                  (λ y. rw (silent.short_code y, silent.custom_alias y)) link),
            same ∙ ap f.dumps (sym (silent.payload u)),
            silent.is_active u ∙ active,
          );
    };
  }

  module _ (laws : IsPostgres pg) (settings : Settings) (now : DateTime) where
    -- A batch that the database accepted leaves every count right.
    persisted-IsCounted :
        (es : List ClickEvent) (db db' : pg.Db)
        → accepted es db ≡ true
        → with_session (persist now es) db ≡ (ok tt, db')
        → IsPersisted now es db db'
        → IsCounted (pg.short_urls.rows db) (pg.click_events.rows db)
        → IsCounted (pg.short_urls.rows db') (pg.click_events.rows db')
    persisted-IsCounted es db db' good ends p counted =
        let g = credit now (counter (map (λ e. e.short_url_id) es)) in
        let agree : CountsAgree db' =
          rw ends at (persist-CountsAgree laws now es db counted.counts) in
        rw (p.credited, p.stored)
          (append-IsCounted (pg.click_events.rows db) es g (pg.short_urls.rows db) (λ u. refl)
            counted (accepted-known (pg.short_urls.rows db) es good)
            (rw (p.credited, p.stored) at agree))

    flush_events-IsSound :
        (events : List JsonObject) (w : World pg r)
        → IsSound f w
        → IsSound f (flush_events settings now events w).1
    unfolding flush_events
    flush_events-IsSound [] w sound = sound
    flush_events-IsSound (e ∷ events) w sound =
        let es = parse_events f (e ∷ events) in
        elim (Bool-cases (accepted es w.db)) [
          | inl good ↦
              let (db', ends, p) = persist-accepted laws now es w.db good in
              rw ends (
                IsSound-map _ db' w (credit-IsSilent f now _) p.credited
                  (persisted-IsCounted es w.db db' good ends p sound.counted) sound)
          | inr bad ↦ rw (persist_refused laws now es w.db bad) sound
        ]

    resumed-IsSound :
        (a : Result (List JsonObject)) (w : World pg r)
        → IsSound f w
        → IsSound f (resume (a, w) (flush_events settings now)).1
    resumed-IsSound (ok events) w sound = flush_events-IsSound events w sound
    resumed-IsSound (err e) w sound = sound

    module _ (texts : IsTextStore r) (typed : IsTypedStore r) where
      flush-IsSound : (w : World pg r) → IsSound f w → IsSound f (flush settings now w).1
      unfolding flush
      flush-IsSound w sound = elim (Bool-cases (queue_length w.store == 0)) [
        | inl empty ↦ rw empty sound
        | inr busy ↦
            let (a, s) = pop_events settings.analytics_batch_size w.store in
            rw busy (
              resumed-IsSound a (record w { store = s })
                (IsSound-Fewer f w.db w.db w.store s refl
                  (λ c raw hit.
                    sym (pop_events-Same texts typed settings.analytics_batch_size w.store c) ∙ hit)
                  sound))
      ]

      pub run_once-IsSound : (w : World pg r) → IsSound f w → IsSound f (run_once settings now w).1
      unfolding run_once
      run_once-IsSound w sound = rw (recovered-state (flush settings now w)) (flush-IsSound w sound)

  module _ (texts : IsTextStore r) (typed : IsTypedStore r) where
    pub wait-IsSound :
        (d : ℕ) (w : World pg r) → IsSound f w → IsSound f (record w { store = r.wait d w.store })
    wait-IsSound d w sound =
        IsSound-Fewer f w.db w.db w.store (r.wait d w.store) refl (wait-Fewer texts typed d w.store)
          sound
