-- ===== src/System/Visits.antt =====
-- A visit of a short link, with its background tasks, between two sound states.
use fastapi_url_shortener.Base.{
  ◌<◌, String, ◌≡◌, refl, sym, ap, ◌∙◌, true, none, some, [], ◌∷◌, arith, string_eq, inl, inr,
  Bool-cases, Option-cases, contains,
}
use fastapi_url_shortener.Core.Action.{Result, ok, err, resume}
use fastapi_url_shortener.Core.Settings.{Settings}
use fastapi_url_shortener.Core.World.{World, on_db}
use fastapi_url_shortener.Models.{Uuid, DateTime, ShortUrl}
use fastapi_url_shortener.Postgres.{Postgres}
use fastapi_url_shortener.Redis.{Redis}
use fastapi_url_shortener.Redis.Laws.{IsTextStore, IsTypedStore}
use fastapi_url_shortener.Formats.{Formats, IsFormats}
use fastapi_url_shortener.Utils.UserAgent.{UserAgents, parse_user_agent}
use fastapi_url_shortener.Repositories.ShortUrls.{has_code, is_live, unexpired}
use fastapi_url_shortener.Repositories.ShortUrls.Lookup.{live_link_of, link_of, first_where-and}
use fastapi_url_shortener.Cache.UrlCache
use fastapi_url_shortener.Cache.UrlCache.{key}
use fastapi_url_shortener.Cache.AnalyticsCache.{push_event}
use fastapi_url_shortener.Analytics.Events.{to_dict}
use fastapi_url_shortener.Analytics.Processor.Queue.{recovered-state}
use fastapi_url_shortener.UrlService.{serialize}
use fastapi_url_shortener.Redirect.{
  Visitor, set_cache, track_click, enqueue_click, enqueue, run_task, run_tasks, resolve_stored,
  redirect, respond, visit, reserved, resolve_cached,
}
use fastapi_url_shortener.Redirect.Resolve.{
  resolve_cached-serialize, resolve_stored_lem, resolve-miss, resolve-hit,
}
use fastapi_url_shortener.Redirect.Coherent.{IsCoherent-setex}
use fastapi_url_shortener.System.Sound.{IsSound, IsSound-Fewer}
use fastapi_url_shortener.System.Stores.{Same, track_click-Same, push_event-Same}

after-state : {S : Type 0} (st : Result Unit × S) → (resume st (λ a. (λ s. (ok tt, s)))).1 ≡ st.1
after-state (ok a, s) = refl
after-state (err e, s) = refl

module _ ⦃pg : Postgres⦄ ⦃r : Redis⦄ ⦃f : Formats⦄ ⦃a : UserAgents⦄ (formats : IsFormats f)
    (texts : IsTextStore r) (typed : IsTypedStore r) (settings : Settings)
    (open_cache : 0 < settings.url_cache_ttl) where
  IsSound-Same :
      (w : World pg r) (s : r.Store)
      → Same w.store s
      → IsSound f w
      → IsSound f (record w { store = s })
  IsSound-Same w s same sound =
      IsSound-Fewer f w.db w.db w.store s refl (λ c raw hit. sym (same c) ∙ hit) sound

  enqueue-Same :
      (now : DateTime) (id : Uuid) (v : Visitor) (s : r.Store)
      → Same s (enqueue settings now id v s).1
  unfolding enqueue
  enqueue-Same now id v s c =
      let ua = parse_user_agent v.user_agent in
      let payload = to_dict f (record {
        short_url_id = id;
        timestamp = now;
        ip_address = v.ip_address;
        user_agent = v.user_agent;
        referrer = v.referrer;
        country = none;
        city = none;
        browser = some ua.browser;
        os = some ua.os;
        device = some ua.device;
      }) in
      ap (r.get (key c)) (recovered-state (push_event payload s))
      ∙ push_event-Same texts typed payload s c

  followed-Same :
      (now : DateTime) (code : String) (id : Uuid) (v : Visitor) (s : r.Store)
      → Same s (run_tasks settings now (track_click code ∷ enqueue_click id v ∷ []) s).1
  unfolding run_tasks run_task UrlCache.track_click enqueue
  followed-Same now code id v s c =
      let s₁ = (UrlCache.track_click settings code s).1 in
      ap (r.get (key c)) (after-state (enqueue settings now id v s₁))
      ∙ enqueue-Same now id v s₁ c
      ∙ track_click-Same texts typed settings open_cache code s c

  live-found :
      (now : DateTime) (code : String) (u : ShortUrl) (w : World pg r)
      → IsSound f w
      → live_link_of now code (pg.short_urls.rows w.db) ≡ some u
      → (link_of code (pg.short_urls.rows w.db) ≡ some u) × (u.is_active ≡ true)
  unfolding is_live
  live-found now code u w sound h =
      let split =
        first_where-and (has_code code) (is_live now) (pg.short_urls.rows w.db)
          (sound.well_formed.unique_codes code) in
      elim (Option-cases (link_of code (pg.short_urls.rows w.db))) [
        | inl lost ↦ cc (rw lost at split)
        | inr (x, e) ↦ ground (arith, rw e at split)
      ]

  -- The tasks of a visit that missed the cache: the live link goes into it.
  warmed-IsSound :
      (now : DateTime) (code : String) (u : ShortUrl) (v : Visitor) (w : World pg r)
      → IsSound f w
      → link_of code (pg.short_urls.rows w.db) ≡ some u
      → u.is_active ≡ true
      → IsSound f (record w {
        store =
            (run_tasks settings now
              (set_cache code (serialize f u) ∷ track_click code ∷ enqueue_click u.id v ∷ [])
              w.store).1;
      })
  unfolding run_tasks run_task UrlCache.set UrlCache.track_click enqueue
  warmed-IsSound now code u v w sound link active =
      let s = r.setex (key code) settings.url_cache_ttl (f.dumps (serialize f u)) w.store in
      IsSound-Same (record w { store = s })
        (run_tasks settings now (track_click code ∷ enqueue_click u.id v ∷ []) s).1
        (followed-Same now code u.id v s)
        (record {
          well_formed = sound.well_formed;
          counted = sound.counted;
          coherent =
              IsCoherent-setex texts w sound.coherent w.db code settings.url_cache_ttl u open_cache
                link active (λ c x there. there);
        })

  responded-stored :
      (now later : DateTime) (code : String) (v : Visitor) (w : World pg r)
      → IsSound f w
      → IsSound f (respond settings later (on_db (resolve_stored settings now code v) w)).1
  responded-stored now later code v w sound =
      elim (Option-cases (live_link_of now code (pg.short_urls.rows w.db))) [
        | inl lost ↦
            rw (resolve_stored_lem formats settings now code v w.db sound.well_formed, lost) sound
        | inr (u, e) ↦
            let (link, active) = live-found now code u w sound e in
            rw (resolve_stored_lem formats settings now code v w.db sound.well_formed, e)
              (warmed-IsSound later code u v w sound link active)
      ]

  responded-cached :
      (now later : DateTime) (code : String) (u : ShortUrl) (v : Visitor) (w : World pg r)
      → IsSound f w
      → IsSound f (respond settings later (resolve_cached settings now code v (serialize f u), w)).1
  responded-cached now later code u v w sound = elim (Bool-cases (unexpired now u.expires_at)) [
    | inl fresh ↦
        rw (resolve_cached-serialize formats settings now code v u, fresh)
          (IsSound-Same w
            (run_tasks settings later (track_click code ∷ enqueue_click u.id v ∷ []) w.store).1
            (followed-Same later code u.id v w.store) sound)
    | inr stale ↦ rw (resolve_cached-serialize formats settings now code v u, stale) sound
  ]

  pub visit-IsSound :
      (now later : DateTime) (code : String) (v : Visitor) (w : World pg r)
      → IsSound f w
      → IsSound f (visit settings now later code v w).1
  unfolding visit redirect
  visit-IsSound now later code v w sound = elim (Bool-cases (contains (reserved settings) code)) [
    | inl page ↦ rw page sound
    | inr other ↦ rw other (elim (Option-cases (r.get (key code) w.store)) [
      | inl miss ↦
          rw (resolve-miss formats settings now code v w miss)
            (responded-stored now later code v w sound)
      | inr (raw, hit) ↦
          let (u, link, same, active) = sound.coherent.at code raw hit in
          rw (resolve-hit formats settings now code v w u (hit ∙ ap some same))
            (responded-cached now later code u v w sound)
    ])
  ]
