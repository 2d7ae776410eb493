-- ===== src/System/Handlers.antt =====
-- The handlers of app/api/v1/endpoints/urls.py between two sound states.
use fastapi_url_shortener.Base.{
  ℕ, ◌<◌, String, ◌≡◌, List, update_where, ap, refl, sym, ◌∙◌, Bool, true, not, ◌&&◌, nat_eq,
  Option, none, some, arith, ◌==◌, string_eq, option_eq,
}
use fastapi_url_shortener.Core.Action.{Result, ok, err, reads, raise_if}
use fastapi_url_shortener.Core.Errors.{not_found_error, authorization_error}
use fastapi_url_shortener.Repositories.ShortUrls as Repo
use fastapi_url_shortener.Repositories.BaseRepository as Base
use fastapi_url_shortener.Core.Security.{Crypto}
use fastapi_url_shortener.Core.Settings.{Settings}
use fastapi_url_shortener.Core.World.{World, on_db, on_store}
use fastapi_url_shortener.Models.{Uuid, DateTime, ShortUrl, ClickEvent}
use fastapi_url_shortener.Postgres.{Postgres}
use fastapi_url_shortener.Postgres.Laws.{IsPostgres}
use fastapi_url_shortener.Repositories.ShortUrls.Counted.{
  IsCounted, insert-IsCounted, update-IsCounted, delete-IsCounted,
}
use fastapi_url_shortener.Redis.{Redis}
use fastapi_url_shortener.Redis.Laws.{IsTextStore, IsTypedStore}
use fastapi_url_shortener.Formats.{Formats}
use fastapi_url_shortener.Dependencies.{get_current_user, get_optional_user}
use fastapi_url_shortener.Endpoints.{limited}
use fastapi_url_shortener.Endpoints.Urls.{
  identifier, creation_limit, id_of, is_admin, create_url, list_urls, get_url, update_url,
  delete_url,
}
use fastapi_url_shortener.Redirect.Request.{Request}
use fastapi_url_shortener.UrlService as Service
use fastapi_url_shortener.UrlService.{
  UrlCreateRequest, UrlUpdateRequest, UrlResponse, found, to_response, set_fields, is_valid_create,
}
use fastapi_url_shortener.UrlService.Create.{Finished, create_lem}
use fastapi_url_shortener.UrlService.Update.{Updated, update_lem}
use fastapi_url_shortener.UrlService.Delete.{Deleted, delete_lem}
use fastapi_url_shortener.Utils.UrlValidator.{UrlParsers}
use fastapi_url_shortener.System.Sound.{
  IsSound, Quiet, Quiet-Safe, Quiet-bind, Quiet-result, Ended, Safe, Safe-in_session,
  Quiet-Safe-bind, Quiet-on_db, Quiet-on_store,
}
use fastapi_url_shortener.System.Stores.{limited-Same}
use fastapi_url_shortener.System.Reads.{Keeps-get_current_user, Keeps-get_optional_user}

set_fields-IsCounted :
    (urls : List ShortUrl) (clicks : List ClickEvent)
    → IsCounted urls clicks
    → (i : Uuid) (d : UrlUpdateRequest) (now : DateTime)
    → IsCounted (update_where (λ v. v.id == i) (set_fields now d) urls) clicks
unfolding set_fields
set_fields-IsCounted urls clicks c i d now =
    update-IsCounted urls clicks c (λ v. v.id == i) (set_fields now d) (λ u. refl) (λ u. refl)

module _ ⦃pg : Postgres⦄ ⦃r : Redis⦄ ⦃f : Formats⦄ (laws : IsPostgres pg) (texts : IsTextStore r)
    (settings : Settings) where
  module _ ⦃p : UrlParsers⦄ (open_cache : 0 < settings.url_cache_ttl) (d : UrlCreateRequest)
      (owner_id : Option Uuid) (id : Uuid) (now : DateTime) (candidate : ℕ → String) where
    Finished-Ended :
        (w : World pg r) (sound : IsSound f w) (st : Result UrlResponse × World pg r)
        → Finished laws texts settings w sound.well_formed sound.coherent open_cache d owner_id id
            now candidate st
        → Ended f w st
    Finished-Ended w sound (ok a, w') (u, new, response, created) = record {
      well_formed = created.well_formed;
      counted =
          rw (created.appended, created.clicks)
            (insert-IsCounted (pg.short_urls.rows w.db) (pg.click_events.rows w.db) u
              (rw (← created.appended) (created.well_formed.unique_ids u.id))
              (ap (λ v. v.click_count) new) sound.counted);
      coherent = created.coherent;
    }
    Finished-Ended w sound (err e, w') same = rw same sound

    Safe-create :
        is_valid_create now d ≡ true → Safe f (Service.create settings d owner_id id now candidate)
    Safe-create valid w sound =
        Finished-Ended w sound (Service.create settings d owner_id id now candidate w) (
          create_lem laws texts settings w sound.well_formed sound.coherent open_cache d owner_id id
            now candidate valid)

  module _ (url_id requester_id : Uuid) (admin : Bool) where
    Deleted-Ended :
        (w : World pg r) (sound : IsSound f w) (st : Result Unit × World pg r)
        → Deleted laws texts settings w sound.well_formed sound.coherent url_id requester_id admin
            st
        → Ended f w st
    Deleted-Ended w sound (ok a, w') (u, allowed, changed) = record {
      well_formed = changed.well_formed;
      counted =
          rw (changed.rows, changed.events)
            (delete-IsCounted (pg.short_urls.rows w.db) (pg.click_events.rows w.db) sound.counted
              u.id);
      coherent = changed.coherent;
    }
    Deleted-Ended w sound (err e, w') same = rw same sound

    Safe-delete : Safe f (Service.delete settings url_id requester_id admin)
    Safe-delete w sound =
        Deleted-Ended w sound (Service.delete settings url_id requester_id admin w) (
          delete_lem laws texts settings w sound.well_formed sound.coherent url_id requester_id
            admin)

    module _ (d : UrlUpdateRequest) (now : DateTime) where
      Updated-Ended :
          (w : World pg r) (sound : IsSound f w) (st : Result UrlResponse × World pg r)
          → Updated laws texts settings w sound.well_formed sound.coherent url_id requester_id admin
              d now st
          → Ended f w st
      Updated-Ended w sound (ok a, w') (u, allowed, response, changed) = record {
        well_formed = changed.well_formed;
        counted =
            rw (changed.rows, changed.events)
              (set_fields-IsCounted (pg.short_urls.rows w.db) (pg.click_events.rows w.db)
                sound.counted u.id d now);
        coherent = changed.coherent;
      }
      Updated-Ended w sound (err e, w') same = rw same sound

      Safe-update : Safe f (Service.update settings url_id d requester_id admin now)
      Safe-update w sound =
          Updated-Ended w sound (Service.update settings url_id d requester_id admin now w) (
            update_lem laws texts settings w sound.well_formed sound.coherent url_id requester_id
              admin d now)

  module _ ⦃y : Crypto⦄ (credentials : Option String) (now : DateTime) where
    pub create_url-IsSound :
        ⦃p : UrlParsers⦄ (typed : IsTypedStore r) (d : UrlCreateRequest) (q : Request)
        (req_id : String) (id : Uuid) (candidate : ℕ → String) (w : World pg r)
        → 0 < settings.url_cache_ttl
        → is_valid_create now d ≡ true
        → IsSound f w
        → IsSound f (create_url settings credentials now d q req_id id candidate w).1
    unfolding create_url
    create_url-IsSound ⦃p⦄ typed d q req_id id candidate w open_cache valid sound =
        Safe-in_session f _ w
          (Quiet-Safe-bind f (on_db (get_optional_user settings now credentials)) _
            (Quiet-on_db (get_optional_user settings now credentials)
              (Keeps-get_optional_user settings now credentials))
            (λ u.
              Quiet-Safe-bind f
                (on_store (
                  limited (identifier f u q) (creation_limit u) 3600 "create_url"
                    "URL creation rate limit exceeded" now req_id))
                _
                (Quiet-on_store
                  (limited (identifier f u q) (creation_limit u) 3600 "create_url"
                    "URL creation rate limit exceeded" now req_id)
                  (λ s c raw hit.
                    sym (
                      limited-Same texts typed (identifier f u q) (creation_limit u) 3600
                        "create_url" "URL creation rate limit exceeded" now req_id s (omega arith)
                        c)
                    ∙ hit))
                (λ _. Safe-create open_cache d (id_of u) id now candidate valid)))
          sound

    pub update_url-IsSound :
        (url_id : Uuid) (d : UrlUpdateRequest) (w : World pg r)
        → IsSound f w
        → IsSound f (update_url settings credentials now url_id d w).1
    unfolding update_url
    update_url-IsSound url_id d w sound =
        Safe-in_session f _ w
          (Quiet-Safe-bind f (on_db (get_current_user settings now credentials)) _
            (Quiet-on_db (get_current_user settings now credentials)
              (Keeps-get_current_user settings now credentials))
            (λ u. Safe-update url_id u.id (is_admin u) d now))
          sound

    pub delete_url-IsSound :
        (url_id : Uuid) (w : World pg r)
        → IsSound f w
        → IsSound f (delete_url settings credentials now url_id w).1
    unfolding delete_url
    delete_url-IsSound url_id w sound =
        Safe-in_session f _ w
          (Quiet-Safe-bind f (on_db (get_current_user settings now credentials)) _
            (Quiet-on_db (get_current_user settings now credentials)
              (Keeps-get_current_user settings now credentials))
            (λ u. Safe-delete url_id u.id (is_admin u)))
          sound

module _ ⦃pg : Postgres⦄ ⦃r : Redis⦄ ⦃f : Formats⦄ ⦃y : Crypto⦄ (settings : Settings)
    (credentials : Option String) (now : DateTime) where
  pub list_urls-IsSound :
      (ties : ShortUrl → ℕ) (page size : ℕ) (w : World pg r)
      → IsSound f w
      → IsSound f (list_urls settings credentials now ties page size w).1
  unfolding list_urls
  list_urls-IsSound ties page size w = Safe-in_session f _ w (
      Quiet-Safe f _ (
        Quiet-bind (on_db (get_current_user settings now credentials)) _
          (Quiet-on_db (get_current_user settings now credentials)
            (Keeps-get_current_user settings now credentials))
          (λ u.
            Quiet-on_db (reads (λ db. ok (Service.list_by_owner settings ties u.id page size db)))
              (λ db. refl))))

  Quiet-found : (u : Option ShortUrl) → Quiet ⦃pg = pg⦄ ⦃r = r⦄ (found u)
  Quiet-found none w = Quiet-result {A = ShortUrl} (err (not_found_error "URL")) w
  Quiet-found (some u) w = Quiet-result (ok u) w

  Quiet-get_by_id :
      (url_id : Uuid) (requester : Option Uuid)
      → Quiet (Service.get_by_id settings url_id requester)
  unfolding Service.get_by_id Repo.get_by_id Base.get_by_id Base.find_one Repo.find_one
  Quiet-get_by_id url_id requester =
      Quiet-bind (on_db (Repo.get_by_id url_id)) _
        (Quiet-on_db (Repo.get_by_id url_id) (λ db. refl))
        (λ o. Quiet-bind (found o) _ (Quiet-found o) (λ l.
          Quiet-bind
            (raise_if (not l.is_public && not (l.owner_id == requester))
              (authorization_error "This link is private"))
            _ (λ w. (refl, λ c raw hit. hit)) (λ _. Quiet-result (ok (to_response settings l)))))

  pub get_url-IsSound :
      (url_id : Uuid) (w : World pg r)
      → IsSound f w
      → IsSound f (get_url settings credentials now url_id w).1
  unfolding get_url
  get_url-IsSound url_id w = Safe-in_session f _ w (
      Quiet-Safe f _ (
        Quiet-bind (on_db (get_optional_user settings now credentials)) _
          (Quiet-on_db (get_optional_user settings now credentials)
            (Keeps-get_optional_user settings now credentials))
          (λ u. Quiet-get_by_id url_id (id_of u))))
