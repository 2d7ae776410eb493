-- ===== src/System/Reports.antt =====
-- The pictures and the summaries of links, between two sound states.
use Prim.Native.String.{◌++◌}
use fastapi_url_shortener.Base.{
  ℕ, ◌<◌, String, ◌≢◌, refl, ap, Option, none, some, arith, ◌==◌, string_eq, eq_iff, inl, inr,
  Bool-cases,
}
use fastapi_url_shortener.Core.Action.{or_raise}
use fastapi_url_shortener.Core.Errors.{Error, not_found_error, value_error}
use fastapi_url_shortener.Core.Security.{Crypto}
use fastapi_url_shortener.Core.Settings.{Settings}
use fastapi_url_shortener.Core.World.{World, on_db, on_store}
use fastapi_url_shortener.Models.{DateTime}
use fastapi_url_shortener.Postgres.{Postgres}
use fastapi_url_shortener.Redis.{Redis}
use fastapi_url_shortener.Redis.Laws.{IsTextStore}
use fastapi_url_shortener.Formats.{Formats, NestedJson}
use fastapi_url_shortener.Repositories.BaseRepository as Base
use fastapi_url_shortener.Repositories.ShortUrls.{find_one, get_by_short_code}
use fastapi_url_shortener.Cache.Prefixes.{initial, initial-append, initial-key}
use fastapi_url_shortener.Cache.UrlCache.{key}
use fastapi_url_shortener.Cache.AnalyticsCache as Cache
use fastapi_url_shortener.Cache.AnalyticsCache.{summary_key}
use fastapi_url_shortener.Dependencies.{get_current_user}
use fastapi_url_shortener.AnalyticsService as Service
use fastapi_url_shortener.AnalyticsService.{
  SummaryModel, Rounding, summarize, compute_summary, get_analytics_summary,
}
use fastapi_url_shortener.QrService.{Imaging, qr_key, generate, get_or_generate, get_qr_code}
use fastapi_url_shortener.QrService as Qr
use fastapi_url_shortener.UrlService.{alias_or_code}
use fastapi_url_shortener.System.Sound.{
  IsSound, Fewer, Quiet, Quiet-Safe, Quiet-bind, Quiet-on_db, Quiet-on_store, Safe-in_session,
}
use fastapi_url_shortener.System.Reads.{Keeps-get_current_user}

qr_key-ne-key : (k c : String) → qr_key k ≢ key c
unfolding qr_key
qr_key-ne-key k c h = ground (arith, ap initial h, initial-append "q" "r:" k, initial-key c)

summary_key-ne-key : (k c : String) → summary_key k ≢ key c
unfolding summary_key
summary_key-ne-key k c h =
    ground (arith, ap initial h, initial-append "a" "nalytics:summary:" k, initial-key c)

module _ ⦃pg : Postgres⦄ ⦃r : Redis⦄ where
  setex-Fewer :
      (texts : IsTextStore r) (k v : String) (ttl : ℕ) (s : r.Store)
      → 0 < ttl
      → ((c : String) → k ≢ key c)
      → Fewer ⦃pg = pg⦄ s (r.setex k ttl v s)
  setex-Fewer texts k v ttl s lives other c raw hit =
      ground (arith, texts.get-setex (key c) k v ttl s lives, eq_iff k (key c), other c)

  Quiet-or_raise : {A : Type 0} (o : Option A) (e : Error) → Quiet ⦃pg = pg⦄ ⦃r = r⦄ (or_raise o e)
  Quiet-or_raise none e w = (refl, λ c raw hit. hit)
  Quiet-or_raise (some a) e w = (refl, λ c raw hit. hit)

  Quiet-get_by_short_code : (c : String) → Quiet ⦃pg = pg⦄ ⦃r = r⦄ (on_db (get_by_short_code c))
  unfolding get_by_short_code find_one Base.find_one
  Quiet-get_by_short_code c = Quiet-on_db (get_by_short_code c) (λ db. refl)

module _ ⦃pg : Postgres⦄ ⦃r : Redis⦄ ⦃f : Formats⦄ (texts : IsTextStore r)
    (settings : Settings) where
  module _ ⦃m : Imaging⦄ (open_cache : 0 < settings.qr_cache_ttl) (short_code : String) where
    Quiet-generate : Quiet (generate settings short_code)
    unfolding generate
    Quiet-generate =
        Quiet-bind (on_db (get_by_short_code short_code)) _ (Quiet-get_by_short_code short_code)
          (λ o.
            Quiet-bind (or_raise o (not_found_error "Short URL")) _
              (Quiet-or_raise o (not_found_error "Short URL"))
              (λ u w. (
                refl,
                setex-Fewer texts (qr_key short_code)
                    (m.b64encode (m.render (settings.base_url ++ "/" ++ alias_or_code u)))
                    settings.qr_cache_ttl w.store open_cache (qr_key-ne-key short_code),
              )))

    Quiet-cached_or :
        (o : Option String) → Quiet (Qr.cached_or settings o (generate settings short_code))
    Quiet-cached_or none = Quiet-generate
    Quiet-cached_or (some raw) = elim (Bool-cases (raw == "")) [
      | inl empty ↦ rw empty Quiet-generate
      | inr filled ↦ rw filled (Quiet-or_raise (m.b64decode raw) value_error)
    ]

    Quiet-get_or_generate : Quiet (get_or_generate settings short_code)
    unfolding get_or_generate
    Quiet-get_or_generate w = Quiet-cached_or (r.get (qr_key short_code) w.store) w

    pub get_qr_code-IsSound :
        (w : World pg r) → IsSound f w → IsSound f (get_qr_code settings short_code w).1
    unfolding get_qr_code
    get_qr_code-IsSound w = Safe-in_session f _ w (
        Quiet-Safe f _ (
          Quiet-bind (get_or_generate settings short_code) _ Quiet-get_or_generate
            (λ png w'. (refl, λ c raw hit. hit))))

  module _ ⦃y : Crypto⦄ ⦃j : NestedJson⦄ (m : SummaryModel j) (o : Rounding)
      (open_cache : 0 < settings.analytics_cache_ttl) (now : DateTime) (short_code : String)
      (days : ℕ) where
    Quiet-compute_summary : Quiet (compute_summary m o settings now short_code days)
    unfolding compute_summary Cache.set_summary
    Quiet-compute_summary =
        Quiet-bind (on_db (get_by_short_code short_code)) _ (Quiet-get_by_short_code short_code)
          (λ found.
            Quiet-bind (or_raise found (not_found_error "Short URL")) _
              (Quiet-or_raise found (not_found_error "Short URL"))
              (λ u w. (
                refl,
                setex-Fewer texts (summary_key short_code)
                    (j.dumps (m.model_dump (summarize o now short_code days u w.db)))
                    settings.analytics_cache_ttl w.store open_cache (summary_key-ne-key short_code),
              )))

    Quiet-summary_or :
        (cached : Option j.Dict)
        → Quiet (
            Service.cached_or m o settings now cached
              (compute_summary m o settings now short_code days))
    Quiet-summary_or none = Quiet-compute_summary
    Quiet-summary_or (some d) = elim (Bool-cases (m.truth d)) [
      | inl filled ↦ rw filled (Quiet-or_raise (m.construct d) value_error)
      | inr empty ↦ rw empty Quiet-compute_summary
    ]

    Quiet-get_summary : Quiet (Service.get_summary m o settings now short_code days)
    unfolding Service.get_summary Cache.get_summary
    Quiet-get_summary =
        Quiet-bind (on_store (Cache.get_summary short_code)) _
          (Quiet-on_store (Cache.get_summary short_code) (λ s c raw hit. hit)) Quiet-summary_or

    pub get_analytics_summary-IsSound :
        (credentials : Option String) (w : World pg r)
        → IsSound f w
        → IsSound f (get_analytics_summary m o settings now credentials short_code days w).1
    unfolding get_analytics_summary
    get_analytics_summary-IsSound credentials w = Safe-in_session f _ w (
        Quiet-Safe f _ (
          Quiet-bind (on_db (get_current_user settings now credentials)) _
            (Quiet-on_db (get_current_user settings now credentials)
              (Keeps-get_current_user settings now credentials))
            (λ u. Quiet-get_summary)))
