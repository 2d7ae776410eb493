-- ===== src/System/Sound.antt =====
-- What holds between two requests, and the work that keeps it.
use fastapi_url_shortener.Base.{String, ◌≡◌, subst, List, refl, sym, ◌∙◌, some}
use fastapi_url_shortener.Core.Action.{Result, ok, err, Action, resume, ◌>>=◌}
use fastapi_url_shortener.Core.World.{World, on_db, on_store}
use fastapi_url_shortener.Postgres.{Postgres}
use fastapi_url_shortener.Redis.{Redis}
use fastapi_url_shortener.Formats.{Formats}
use fastapi_url_shortener.Repositories.ShortUrls.WellFormed.{IsWellFormed}
use fastapi_url_shortener.Repositories.ShortUrls.Counted.{IsCounted}
use fastapi_url_shortener.Repositories.ShortUrls.Lookup.{link_of}
use fastapi_url_shortener.Models.{ShortUrl, ClickEvent}
use fastapi_url_shortener.Cache.UrlCache.{key}
use fastapi_url_shortener.Redirect.Resolve.{IsCoherent}
use fastapi_url_shortener.Endpoints.{in_session}

-- The tables of the links and of the clicks.
abbrev pub shown : ⦃pg : Postgres⦄ → pg.Db → List ShortUrl × List ClickEvent
shown ⦃pg⦄ db = (pg.short_urls.rows db, pg.click_events.rows db)

-- The links are well-formed, their click counts are the numbers of their stored clicks, and the
-- cache is coherent with them.
pub record IsSound {pg : Postgres} {r : Redis} (f : Formats) (w : World pg r) : Type 0 where
  pub well_formed : IsWellFormed (pg.short_urls.rows w.db)
  pub counted : IsCounted (pg.short_urls.rows w.db) (pg.click_events.rows w.db)
  pub coherent : IsCoherent f w

module _ ⦃pg : Postgres⦄ ⦃r : Redis⦄ where
  -- The cached links are among those that were cached.
  abbrev pub Fewer : r.Store → r.Store → Type 0
  Fewer s s' = (c raw : String) → r.get (key c) s' ≡ some raw → r.get (key c) s ≡ some raw

  pub IsSound-Fewer :
      (f : Formats) (db db' : pg.Db) (s s' : r.Store)
      → shown db' ≡ shown db
      → Fewer s s'
      → IsSound {pg = pg} {r = r} f (record { db = db; store = s })
      → IsSound {pg = pg} {r = r} f (record { db = db'; store = s' })
  IsSound-Fewer f db db' s s' same fewer sound = record {
    well_formed = subst (λ t. IsWellFormed t.0) (sym same) sound.well_formed;
    counted = subst (λ t. IsCounted t.0 t.1) (sym same) sound.counted;
    coherent = record {
      at = λ c raw hit.
          let (u, link, payload, live) = sound.coherent.at c raw (fewer c raw hit) in
          (u, subst (λ t. link_of c t.0 ≡ some u) (sym same) link, payload, live);
    };
  }

  module _ {A : Type 0} where
    -- Work that leaves the links alone, and adds no cached link.
    abbrev pub Quiet : Action (World pg r) A → Type 0
    Quiet m = (w : World pg r) → (shown (m w).1.db ≡ shown w.db) × Fewer w.store (m w).1.store

    -- After a normal end the state is sound; after an exception it is, once the database is rolled
    -- back.
    abbrev pub Ended : Formats → World pg r → Result A × World pg r → Type 0
    Ended f w (ok a, w') = IsSound f w'
    Ended f w (err e, w') = IsSound {pg = pg} {r = r} f (record { db = w.db; store = w'.store })

    abbrev pub Safe : Formats → Action (World pg r) A → Type 0
    Safe f m = (w : World pg r) → IsSound f w → Ended f w (m w)

    Ended-settled :
        (f : Formats) (w : World pg r) (st : Result A × World pg r)
        → Ended f w st
        → IsSound f (in_session (λ _. st) w).1
    unfolding in_session
    Ended-settled f w (ok a, w') h = h
    Ended-settled f w (err e, w') h = h

    pub Safe-in_session :
        (f : Formats) (m : Action (World pg r) A) (w : World pg r)
        → Safe f m
        → IsSound f w
        → IsSound f (in_session m w).1
    unfolding in_session
    Safe-in_session f m w safe sound = Ended-settled f w (m w) (safe w sound)

    Ended-Quiet :
        (f : Formats) (w : World pg r) (st : Result A × World pg r)
        → shown st.1.db ≡ shown w.db
        → Fewer w.store st.1.store
        → IsSound f w
        → Ended f w st
    Ended-Quiet f w (ok a, w') same fewer sound =
        IsSound-Fewer f w.db w'.db w.store w'.store same fewer sound
    Ended-Quiet f w (err e, w') same fewer sound =
        IsSound-Fewer f w.db w.db w.store w'.store refl fewer sound

    Ended-back :
        (f : Formats) (w w' : World pg r) (st : Result A × World pg r)
        → shown w'.db ≡ shown w.db
        → Ended f w' st
        → Ended f w st
    Ended-back f w w' (ok a, v) same h = h
    Ended-back f w w' (err e, v) same h =
        IsSound-Fewer f w'.db w.db v.store v.store (sym same) (λ c raw hit. hit) h

    pub Quiet-Safe : (f : Formats) (m : Action (World pg r) A) → Quiet m → Safe f m
    Quiet-Safe f m quiet w sound = Ended-Quiet f w (m w) (quiet w).0 (quiet w).1 sound

  module _ {A B : Type 0} where
    resumed :
        (f : Formats) (k : A → Action (World pg r) B) (w : World pg r)
        → ((a : A) → Safe f (k a))
        → (st : Result A × World pg r) → shown st.1.db ≡ shown w.db
        → Fewer w.store st.1.store
        → IsSound f w
        → Ended f w (resume st k)
    resumed f k w safe (ok a, w') same fewer sound =
        Ended-back f w w' (k a w') same
          (safe a w' (IsSound-Fewer f w.db w'.db w.store w'.store same fewer sound))
    resumed f k w safe (err e, w') same fewer sound =
        IsSound-Fewer f w.db w.db w.store w'.store refl fewer sound

    -- Safe work after quiet work is safe, and quiet work after quiet work is quiet.
    pub Quiet-Safe-bind :
        (f : Formats) (m : Action (World pg r) A) (k : A → Action (World pg r) B)
        → Quiet m
        → ((a : A) → Safe f (k a))
        → Safe f (m >>= k)
    Quiet-Safe-bind f m k quiet safe w sound =
        resumed f k w safe (m w) (quiet w).0 (quiet w).1 sound

    resumed-Quiet :
        (k : A → Action (World pg r) B) (w : World pg r)
        → ((a : A) → Quiet (k a))
        → (st : Result A × World pg r) → shown st.1.db ≡ shown w.db
        → Fewer w.store st.1.store
        → (shown (resume st k).1.db ≡ shown w.db) × Fewer w.store (resume st k).1.store
    resumed-Quiet k w quiet (ok a, w') same fewer =
        ((quiet a w').0 ∙ same, λ c raw hit. fewer c raw ((quiet a w').1 c raw hit))
    resumed-Quiet k w quiet (err e, w') same fewer = (same, fewer)

    pub Quiet-bind :
        (m : Action (World pg r) A) (k : A → Action (World pg r) B)
        → Quiet m
        → ((a : A) → Quiet (k a))
        → Quiet (m >>= k)
    Quiet-bind m k quiet rest w = resumed-Quiet k w rest (m w) (quiet w).0 (quiet w).1

  module _ {A : Type 0} where
    pub Quiet-on_db :
        (m : Action pg.Db A) → ((db : pg.Db) → shown (m db).1 ≡ shown db) → Quiet (on_db m)
    Quiet-on_db m same w = (same w.db, λ c raw hit. hit)

    pub Quiet-on_store :
        (m : Action r.Store A) → ((s : r.Store) → Fewer s (m s).1) → Quiet (on_store m)
    Quiet-on_store m fewer w = (refl, fewer w.store)

    pub Quiet-result : (a : Result A) → Quiet (λ w. (a, w))
    Quiet-result a w = (refl, λ c raw hit. hit)
