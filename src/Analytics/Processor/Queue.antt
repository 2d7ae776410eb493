-- ===== src/Analytics/Processor/Queue.antt =====
-- `_flush` and `_run` of app/analytics/processor.py, with the queue.
use fastapi_url_shortener.Base.{
  ◌∙◌, ℕ, zero, suc, ◌<◌, String, ◌≡◌, ◌≢◌, refl, true, false, List, [], ◌∷◌, arith, inl, inr,
  Option-cases, Bool-cases, ◌==◌, nat_eq, length, take, drop,
}
use fastapi_url_shortener.Core.Errors.{dbapi_error}
use fastapi_url_shortener.Core.Settings.{Settings}
use fastapi_url_shortener.Core.World.{World}
use fastapi_url_shortener.Core.Action.{recover, Result, ok, err}
use fastapi_url_shortener.Models.{DateTime}
use fastapi_url_shortener.Postgres.{Postgres}
use fastapi_url_shortener.Postgres.Laws.{IsPostgres}
use fastapi_url_shortener.Redis.{Redis}
use fastapi_url_shortener.Redis.Laws.{IsListStore}
use fastapi_url_shortener.Formats.{Formats, JsonObject}
use fastapi_url_shortener.Cache.AnalyticsCache.{queue_key, load_all, pop_events, queue_length}
use fastapi_url_shortener.Analytics.Processor.{
  persist, pure, with_session, on_db, resume, parse_events, flush_events, flush, run_once, rounds,
}
use fastapi_url_shortener.Analytics.Processor.Flush.{
  accepted, IsPersisted, CountsAgree, persist-accepted, persist_refused, persist-CountsAgree,
}

-- What `except Exception` with a logged error leaves of the state.
pub recovered-state : {S : Type 0} (st : Result Unit × S) → (recover st (λ e. pure tt)).1 ≡ st.1
recovered-state (ok a, s) = refl
recovered-state (err e, s) = refl

length-ne-zero : {A : Type 0} (xs : List A) → xs ≢ [] → (length xs == 0) ≡ false
length-ne-zero [] h = absurd (h refl)
length-ne-zero (x ∷ xs) h = ground arith

-- A batch that was taken from a queue with something in it is not empty.
load_all-ne-nil :
    (f : Formats) (n : ℕ) (raws : List String) (events : List JsonObject)
    → 0 < n
    → raws ≢ []
    → load_all f (take n raws) ≡ ok events
    → events ≢ []
unfolding load_all
load_all-ne-nil f n [] events h busy e = absurd (busy refl)
load_all-ne-nil f zero (raw ∷ raws) events h busy e = absurd (omega arith)
load_all-ne-nil f (suc n) (raw ∷ raws) events h busy e = ground arith

module _ ⦃pg : Postgres⦄ ⦃r : Redis⦄ ⦃f : Formats⦄ (laws : IsPostgres pg)
    (settings : Settings) where
  flush_events-cons :
      (now : DateTime) (events : List JsonObject) (w : World pg r)
      → events ≢ []
      → flush_events settings now events w
        ≡ on_db (with_session (persist now (parse_events f events))) w
  unfolding flush_events
  flush_events-cons now [] w h = absurd (h refl)
  flush_events-cons now (e ∷ events) w h = refl

  flush_events-CountsAgree :
      (now : DateTime) (events : List JsonObject) (w : World pg r)
      → CountsAgree w.db
      → CountsAgree (flush_events settings now events w).1.db
  unfolding flush_events
  flush_events-CountsAgree now [] w agree = agree
  flush_events-CountsAgree now (e ∷ events) w agree =
      persist-CountsAgree laws now (parse_events f (e ∷ events)) w.db agree

  resumed-CountsAgree :
      (now : DateTime) (a : Result (List JsonObject)) (w : World pg r)
      → CountsAgree w.db
      → CountsAgree (resume (a, w) (flush_events settings now)).1.db
  resumed-CountsAgree now (ok events) w agree = flush_events-CountsAgree now events w agree
  resumed-CountsAgree now (err e) w agree = agree

  flush-CountsAgree :
      (now : DateTime) (w : World pg r) → CountsAgree w.db → CountsAgree (flush settings now w).1.db
  unfolding flush
  flush-CountsAgree now w agree = elim (Bool-cases (queue_length w.store == 0)) [
    | inl empty ↦ rw empty agree
    | inr busy ↦
        let (a, s) = pop_events settings.analytics_batch_size w.store in
        rw busy (resumed-CountsAgree now a (record w { store = s }) agree)
  ]

  -- If the click count of every link is the number of its stored click events, that is still so
  -- after any number of rounds of the worker, whatever the queue holds and however they end.
  pub rounds-CountsAgree :
      (times : ℕ → DateTime) (n : ℕ) (w : World pg r)
      → CountsAgree w.db
      → CountsAgree (rounds settings times n w).db
  unfolding rounds run_once
  rounds-CountsAgree times zero w agree = agree
  rounds-CountsAgree times (suc n) w agree =
      rounds-CountsAgree times n (run_once settings (times n) w).1
        (rw (recovered-state (flush settings (times n) w)) (flush-CountsAgree (times n) w agree))

module _ ⦃pg : Postgres⦄ ⦃r : Redis⦄ ⦃f : Formats⦄ (laws : IsPostgres pg) (lists : IsListStore r)
    (settings : Settings) (now : DateTime) (events : List JsonObject) (w : World pg r) where
  abbrev queued : r.Store → List String
  queued s = r.lrange queue_key s

  -- What LMPOP takes: a batch from the front.
  popped :
      queued w.store ≢ []
      → load_all f (take settings.analytics_batch_size (queued w.store)) ≡ ok events
      → (s : r.Store) × (pop_events settings.analytics_batch_size w.store ≡ (ok events, s))
        × (queued s ≡ drop settings.analytics_batch_size (queued w.store))
  unfolding pop_events
  popped busy parsed =
      elim (Option-cases (r.lmpop_left queue_key settings.analytics_batch_size w.store)) [
        | inl empty ↦
            absurd
              (busy (lists.lmpop_left-none queue_key settings.analytics_batch_size w.store empty))
        | inr ((raws, s), e) ↦
            let (taken, rest) =
              lists.lmpop_left-some queue_key settings.analytics_batch_size w.store s raws e in
            (s, rw e (cc (taken, parsed)), rest)
      ]

  flush-busy :
      (s : r.Store)
      → queued w.store ≢ []
      → pop_events settings.analytics_batch_size w.store ≡ (ok events, s)
      → flush settings now w ≡ flush_events settings now events (record w { store = s })
  unfolding flush queue_length
  flush-busy s busy e =
      rw (lists.llen-lrange queue_key w.store, length-ne-zero (queued w.store) busy, e) refl

  -- The batch is taken, and the flush goes on to the session with it.
  flushed :
      0 < settings.analytics_batch_size
      → queued w.store ≢ []
      → load_all f (take settings.analytics_batch_size (queued w.store)) ≡ ok events
      → (s : r.Store) × (flush settings now w
          ≡ on_db (with_session (persist now (parse_events f events))) (record w { store = s }))
        × (queued s ≡ drop settings.analytics_batch_size (queued w.store))
  flushed some_size busy parsed =
      let (s, e, rest) = popped busy parsed in
      let some_events =
        load_all-ne-nil f settings.analytics_batch_size (queued w.store) events some_size busy
          parsed in
      (
        s,
        flush-busy s busy e
            ∙ flush_events-cons laws settings now events (record w { store = s }) some_events,
        rest,
      )

  module _ (some_size : 0 < settings.analytics_batch_size) (busy : queued w.store ≢ [])
      (parsed : load_all f (take settings.analytics_batch_size (queued w.store)) ≡ ok events) where
    -- A flush of a queue with something in it, whose batch is JSON that the database accepts, ends
    -- normally; the batch has left the front of the queue, and exactly the events of it that parse
    -- are stored and counted.
    pub flush-accepted :
        accepted (parse_events f events) w.db ≡ true
        → (w' : World pg r) × (flush settings now w ≡ (ok tt, w'))
          × (queued w'.store ≡ drop settings.analytics_batch_size (queued w.store))
          × IsPersisted now (parse_events f events) w.db w'.db
    flush-accepted good =
        let (s, runs, rest) = flushed some_size busy parsed in
        let (db', ends, result) = persist-accepted laws now (parse_events f events) w.db good in
        (record { db = db'; store = s }, rw runs (rw ends), rest, result)

    -- Where the database refuses one event of the batch (its link is deleted, or a text is longer
    -- than its column), the flush ends with an error of the database, which is unchanged, but the
    -- whole batch has left the queue: every event of it is lost.
    pub flush_loses_batch :
        accepted (parse_events f events) w.db ≡ false
        → (w' : World pg r) × (flush settings now w ≡ (err dbapi_error, w'))
          × (queued w'.store ≡ drop settings.analytics_batch_size (queued w.store))
          × (w'.db ≡ w.db)
    flush_loses_batch bad =
        let (s, runs, rest) = flushed some_size busy parsed in
        (
          record w { store = s },
          rw runs (rw (persist_refused laws now (parse_events f events) w.db bad)),
          rest,
          refl,
        )
