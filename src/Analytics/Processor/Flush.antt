-- ===== src/Analytics/Processor/Flush.antt =====
-- The session block of `_flush` in app/analytics/processor.py.
use mathlib.Core.List.{append-nil}
use fastapi_url_shortener.Base.{
  ◌≡◌, refl, sym, ap, ◌∙◌, Bool, true, false, List, [], ◌∷◌, ◌++◌, map, arith, inl, inr,
  Option-cases, Bool-cases, ◌==◌, nat_eq, count_where, count_where-append, All,
}
use fastapi_url_shortener.Core.Errors.{dbapi_error}
use fastapi_url_shortener.Core.Session.{with_session, settle, settle-ok}
use fastapi_url_shortener.Core.Action.{Result, ok, err}
use fastapi_url_shortener.Models.{DateTime, ShortUrl, ClickEvent, admits_click_event}
use fastapi_url_shortener.Postgres.{Postgres}
use fastapi_url_shortener.Postgres.Laws.{IsPostgres, all_admitted}
use fastapi_url_shortener.Repositories.ClickEvents.{bulk_insert}
use fastapi_url_shortener.Analytics.Processor.{
  resume, counter, insert_events, increment_all, persist,
}
use fastapi_url_shortener.Analytics.Processor.Counts.{credit, counted-counter, rows-increment_all}

module _ ⦃pg : Postgres⦄ where
  -- The foreign key and the columns of `click_events` admit every event.
  abbrev pub accepted : List ClickEvent → pg.Db → Bool
  accepted es db = all_admitted (admits_click_event (pg.short_urls.rows db)) es

  -- The events are stored, and every link is credited with its number of them.
  pub record IsPersisted (now : DateTime) (es : List ClickEvent) (db db' : pg.Db) : Type 0 where
    pub stored : pg.click_events.rows db' ≡ pg.click_events.rows db ++ es
    pub credited :
        pg.short_urls.rows db'
        ≡ map (credit now (counter (map (λ e. e.short_url_id) es))) (pg.short_urls.rows db)

  -- The count of every link is the number of its stored click events.
  abbrev pub CountsAgree : pg.Db → Type 0
  CountsAgree db =
      All (λ u. u.click_count ≡ count_where (λ e. e.short_url_id == u.id) (pg.click_events.rows db))
        (pg.short_urls.rows db)

module _ ⦃pg : Postgres⦄ (laws : IsPostgres pg) where
  -- The events are inserted, and the links are as they were.
  abbrev Inserted : List ClickEvent → pg.Db → Result Unit × pg.Db → Type 0
  Inserted es db (a, db') =
      (a ≡ ok tt)
      × (pg.click_events.rows db' ≡ pg.click_events.rows db ++ es)
      × (pg.short_urls.rows db' ≡ pg.short_urls.rows db)

  insert_events-Inserted :
      (es : List ClickEvent) (db : pg.Db)
      → accepted es db ≡ true
      → Inserted es db (insert_events es db)
  unfolding insert_events bulk_insert
  insert_events-Inserted [] db h = (refl, sym (append-nil (pg.click_events.rows db)), refl)
  insert_events-Inserted (e ∷ es) db h = elim (Option-cases (pg.add_all_click_events (e ∷ es) db)) [
    | inl refused ↦ ground (arith, laws.rows-add_all_click_events (e ∷ es) db)
    | inr (db', inserted) ↦ ground (
      arith,
      laws.rows-add_all_click_events (e ∷ es) db,
      laws.short_urls-add_all_click_events (e ∷ es) db db' inserted,
    )
  ]

  insert_events-refused :
      (es : List ClickEvent) (db : pg.Db)
      → accepted es db ≡ false
      → insert_events es db ≡ (err dbapi_error, db)
  unfolding insert_events bulk_insert
  insert_events-refused [] db h = cc
  insert_events-refused (e ∷ es) db h = ground (arith, laws.rows-add_all_click_events (e ∷ es) db)

  persisted :
      (now : DateTime) (es : List ClickEvent) (db : pg.Db) (st : Result Unit × pg.Db)
      → Inserted es db st
      → let st' = resume st (λ _. increment_all now (counter (map (λ e. e.short_url_id) es))) in
        (settle db st' ≡ (ok tt, st'.1)) × IsPersisted now es db st'.1
  persisted now es db (ok _, db₁) (done, stored, same) =
      let counts = counter (map (λ e. e.short_url_id) es) in
      let (urls, clicks, all_done) = rows-increment_all laws now counts db₁ in
      (
        settle-ok db (increment_all now counts db₁) all_done,
        record { stored = clicks ∙ stored; credited = urls ∙ ap (map (credit now counts)) same },
      )
  persisted now es db (err _, db₁) (failed, stored, same) = cc

  -- The session block of a flush, where the database accepts every event of the batch: it ends
  -- normally, all events are stored, and every link is credited with its number of them.
  pub persist-accepted :
      (now : DateTime) (es : List ClickEvent) (db : pg.Db)
      → accepted es db ≡ true
      → (db' : pg.Db) × (with_session (persist now es) db ≡ (ok tt, db'))
        × IsPersisted now es db db'
  unfolding with_session persist
  persist-accepted now es db h =
      let (ends, result) =
        persisted now es db (insert_events es db) (insert_events-Inserted es db h) in
      ((persist now es db).1, ends, result)

  -- Otherwise it ends with an error of the database and leaves the database as it was.
  pub persist_refused :
      (now : DateTime) (es : List ClickEvent) (db : pg.Db)
      → accepted es db ≡ false
      → with_session (persist now es) db ≡ (err dbapi_error, db)
  unfolding with_session persist
  persist_refused now es db h = rw (insert_events-refused es db h)

  credit-agrees :
      (now : DateTime) (es old : List ClickEvent) (urls : List ShortUrl)
      → All (λ u. u.click_count ≡ count_where (λ e. e.short_url_id == u.id) old) urls
      → All
          (λ u. u.click_count ≡ count_where (λ e. e.short_url_id == u.id) (old ++ es))
          (map (credit now (counter (map (λ e. e.short_url_id) es))) urls)
  credit-agrees now es old [] h = tt
  credit-agrees now es old (u ∷ urls) h = (
    omega (
      arith,
      h.0,
      counted-counter u.id es,
      count_where-append (λ e. e.short_url_id == u.id) old es,
    ),
    credit-agrees now es old urls h.1,
  )

  pub persist-CountsAgree :
      (now : DateTime) (es : List ClickEvent) (db : pg.Db)
      → CountsAgree db
      → CountsAgree (with_session (persist now es) db).1
  persist-CountsAgree now es db agree = elim (Bool-cases (accepted es db)) [
    | inl good ↦
        let (db', ends, p) = persist-accepted now es db good in
        rw (ends, p.stored, p.credited)
          (credit-agrees now es (pg.click_events.rows db) (pg.short_urls.rows db) agree)
    | inr bad ↦ rw (persist_refused now es db bad) agree
  ]
