-- ===== src/System/History.antt =====
-- The states that the service can come to: requests, visits, rounds of the click worker and the
-- passing of time, one after the other.
use fastapi_url_shortener.Base.{
  ℕ, ◌<◌, arith, ◌≡◌, refl, String, true, Option, none, [], contains, string_eq, if◌then◌else◌, inl,
  inr, Bool-cases,
}
use mathlib.Core.Option
use fastapi_url_shortener.Core.Security.{Crypto}
use fastapi_url_shortener.Core.Settings.{Settings}
use fastapi_url_shortener.Core.World.{World}
use fastapi_url_shortener.Models.{Uuid, DateTime, ShortUrl}
use fastapi_url_shortener.Postgres.{Postgres}
use fastapi_url_shortener.Postgres.Laws.{IsPostgres}
use fastapi_url_shortener.Redis.{Redis}
use fastapi_url_shortener.Redis.Laws.{IsTextStore, IsTypedStore}
use fastapi_url_shortener.Formats.{Formats, NestedJson, IsFormats}
use fastapi_url_shortener.Utils.UserAgent.{UserAgents}
use fastapi_url_shortener.Utils.UrlValidator.{UrlParsers}
use fastapi_url_shortener.Repositories.ShortUrls.Lookup.{live_link_of}
use fastapi_url_shortener.Cache.UrlCache.{key}
use fastapi_url_shortener.AuthService.{RegisterRequest, LoginRequest}
use fastapi_url_shortener.UrlService.{UrlCreateRequest, UrlUpdateRequest, is_valid_create}
use fastapi_url_shortener.Endpoints.Urls.{create_url, list_urls, get_url, update_url, delete_url}
use fastapi_url_shortener.Endpoints.Auth.{
  RefreshRequest, register_user, login_user, refresh_token, logout_user, me,
}
use fastapi_url_shortener.Redirect.{Visitor, visit, resolve, reserved, redirect}
use fastapi_url_shortener.Redirect.Request.{Request}
use fastapi_url_shortener.Redirect.Resolve.{answer, resolve_lem}
use fastapi_url_shortener.QrService.{Imaging, get_qr_code}
use fastapi_url_shortener.AnalyticsService.{SummaryModel, Rounding, get_analytics_summary}
use fastapi_url_shortener.Analytics.Processor.{run_once}
use fastapi_url_shortener.System.Sound.{IsSound}
use fastapi_url_shortener.System.Handlers.{
  create_url-IsSound, update_url-IsSound, delete_url-IsSound, list_urls-IsSound, get_url-IsSound,
}
use fastapi_url_shortener.System.Accounts.{
  register_user-IsSound, login_user-IsSound, refresh_token-IsSound, logout_user-IsSound, me-IsSound,
}
use fastapi_url_shortener.System.Reports.{get_qr_code-IsSound, get_analytics_summary-IsSound}
use fastapi_url_shortener.System.Visits.{visit-IsSound}
use fastapi_url_shortener.System.Rounds.{run_once-IsSound, wait-IsSound}

module _ ⦃pg : Postgres⦄ ⦃r : Redis⦄ ⦃f : Formats⦄ ⦃y : Crypto⦄ ⦃p : UrlParsers⦄ ⦃a : UserAgents⦄
    ⦃m : Imaging⦄ ⦃j : NestedJson⦄ (model : SummaryModel j) (o : Rounding)
    (settings : Settings) where
  -- One thing that happens, from its beginning to its end: a request to a handler of
  -- app/api/v1/endpoints that reads or writes the database or Redis, a visit with its background
  -- tasks, a round of the click worker, or time that passes.
  pub data Step (w : World pg r) : World pg r → Type 0 where
    create :
        (credentials : Option String) (now : DateTime) (d : UrlCreateRequest) (q : Request)
        (req_id : String) (id : Uuid) (candidate : ℕ → String)
        → is_valid_create now d ≡ true
        → Step w (create_url settings credentials now d q req_id id candidate w).1
    update :
        (credentials : Option String) (now : DateTime) (url_id : Uuid) (d : UrlUpdateRequest)
        → Step w (update_url settings credentials now url_id d w).1
    delete :
        (credentials : Option String) (now : DateTime) (url_id : Uuid)
        → Step w (delete_url settings credentials now url_id w).1
    list_links :
        (credentials : Option String) (now : DateTime) (ties : ShortUrl → ℕ) (page size : ℕ)
        → Step w (list_urls settings credentials now ties page size w).1
    show :
        (credentials : Option String) (now : DateTime) (url_id : Uuid)
        → Step w (get_url settings credentials now url_id w).1
    register :
        (now : DateTime) (d : RegisterRequest) (q : Request) (req_id : String) (id : Uuid)
        (salt : ℕ)
        → Step w (register_user settings now d q req_id id salt w).1
    login :
        (now : DateTime) (d : LoginRequest) (q : Request) (req_id : String) (id : Uuid)
        → Step w (login_user settings now d q req_id id w).1
    refresh :
        (now : DateTime) (d : RefreshRequest) (id : Uuid)
        → Step w (refresh_token settings now d id w).1
    logout : (now : DateTime) (d : RefreshRequest) → Step w (logout_user settings now d w).1
    whoami :
        (credentials : Option String) (now : DateTime) → Step w (me settings now credentials w).1
    picture : (short_code : String) → Step w (get_qr_code settings short_code w).1
    summary :
        (credentials : Option String) (now : DateTime) (short_code : String) (days : ℕ)
        → Step w (get_analytics_summary model o settings now credentials short_code days w).1
    follow :
        (now later : DateTime) (code : String) (v : Visitor)
        → Step w (visit settings now later code v w).1
    round : (now : DateTime) → Step w (run_once settings now w).1
    wait : (d : ℕ) → Step w (record w { store = r.wait d w.store })

  -- What a fresh service starts from: no links, no clicks, and no link in the cache.
  pub record IsFresh (w : World pg r) : Type 0 where
    pub no_links : pg.short_urls.rows w.db ≡ []
    pub no_clicks : pg.click_events.rows w.db ≡ []
    pub no_cache : (c : String) → r.get (key c) w.store ≡ none

  pub data Reach : World pg r → Type 0 where
    start : (w : World pg r) → IsFresh w → Reach w
    next : (w w' : World pg r) → Reach w → Step w w' → Reach w'

  module _ (laws : IsPostgres pg) (formats : IsFormats f) (texts : IsTextStore r)
      (typed : IsTypedStore r) (open_cache : 0 < settings.url_cache_ttl)
      (open_pictures : 0 < settings.qr_cache_ttl)
      (open_summaries : 0 < settings.analytics_cache_ttl) where
    start-IsSound : (w : World pg r) → IsFresh w → IsSound f w
    start-IsSound w fresh = record {
      well_formed =
          rw fresh.no_links (record {
            unique_codes = λ c. omega arith;
            unique_ids = λ i. omega arith;
            aliases = tt;
          });
      counted = rw (fresh.no_links, fresh.no_clicks) (record { counts = tt; owned = tt });
      coherent = record { at = λ c raw hit. cc (hit, fresh.no_cache c) };
    }

    Step-IsSound : (w w' : World pg r) → Step w w' → IsSound f w → IsSound f w'
    Step-IsSound w _ (create credentials now d q req_id id candidate valid) =
        create_url-IsSound laws texts settings credentials now typed d q req_id id candidate w
          open_cache valid
    Step-IsSound w _ (update credentials now url_id d) =
        update_url-IsSound laws texts settings credentials now url_id d w
    Step-IsSound w _ (delete credentials now url_id) =
        delete_url-IsSound laws texts settings credentials now url_id w
    Step-IsSound w _ (list_links credentials now ties page size) =
        list_urls-IsSound settings credentials now ties page size w
    Step-IsSound w _ (show credentials now url_id) =
        get_url-IsSound settings credentials now url_id w
    Step-IsSound w _ (register now d q req_id id salt) =
        register_user-IsSound laws texts typed settings now d q req_id id salt w
    Step-IsSound w _ (login now d q req_id id) =
        login_user-IsSound laws texts typed settings now d q req_id id w
    Step-IsSound w _ (refresh now d id) = refresh_token-IsSound laws texts typed settings now d id w
    Step-IsSound w _ (logout now d) = logout_user-IsSound laws texts typed settings now d w
    Step-IsSound w _ (whoami credentials now) = me-IsSound settings now credentials w
    Step-IsSound w _ (picture short_code) =
        get_qr_code-IsSound texts settings open_pictures short_code w
    Step-IsSound w _ (summary credentials now short_code days) =
        get_analytics_summary-IsSound texts settings model o open_summaries now short_code days
          credentials w
    Step-IsSound w _ (follow now later code v) =
        visit-IsSound formats texts typed settings open_cache now later code v w
    Step-IsSound w _ (round now) = run_once-IsSound laws settings now texts typed w
    Step-IsSound w _ (wait d) = wait-IsSound texts typed d w

    -- However requests for links, accounts, pictures and summaries, visits, rounds of the click
    -- worker and time follow one another from a fresh service, each finished before the next begins,
    -- with caches whose entries have positive times to live, the links stay well-formed, the click count of
    -- each link is the number of its stored clicks, every stored click is of a link that is there,
    -- and the cache stays coherent with the links.
    pub Reach-IsSound : (w : World pg r) → Reach w → IsSound f w
    Reach-IsSound w (start _ fresh) = start-IsSound w fresh
    Reach-IsSound w (next v _ before step) = Step-IsSound v w step (Reach-IsSound v before)

    -- However requests for links, accounts, pictures and summaries, visits, rounds of the click
    -- worker and time have followed one another from a fresh service, each finished before the next
    -- began, with caches whose entries have positive times to live, `resolve` answers with the URL of
    -- the active, unexpired link of the code, and with no URL where there is none, whether the link
    -- is cached or not; and it changes nothing.
    pub Reach-resolve :
        (w : World pg r) (now : DateTime) (code : String) (v : Visitor)
        → Reach w
        → (answer (resolve settings now code v w).0
            ≡ Option.map (λ u. u.original_url) (live_link_of now code (pg.short_urls.rows w.db)))
          × ((resolve settings now code v w).1 ≡ w)
    Reach-resolve w now code v reach =
        let sound = Reach-IsSound w reach in
        resolve_lem formats settings now code v w sound.well_formed sound.coherent

    -- However requests for links, accounts, pictures and summaries, visits, rounds of the click
    -- worker and time have followed one another from a fresh service, each finished before the next
    -- began, with caches whose entries have positive times to live, the redirect endpoint answers
    -- with the URL of the active, unexpired link of the code, and with no URL where there is none or
    -- the code is a reserved word, even if there is a link with this alias.
    pub Reach-redirect :
        (w : World pg r) (now : DateTime) (code : String) (v : Visitor)
        → Reach w
        → answer (redirect settings now code v w).0 ≡ (
            if contains (reserved settings) code
            then none
            else Option.map (λ u. u.original_url) (live_link_of now code (pg.short_urls.rows w.db)))
    unfolding redirect
    Reach-redirect w now code v reach = elim (Bool-cases (contains (reserved settings) code)) [
      | inl word ↦ rw word refl
      | inr free ↦ rw free (Reach-resolve w now code v reach).0
    ]
