-- ===== src/UrlService/Update.antt =====
-- `update` of app/services/url.py.
use fastapi_url_shortener.Base.{
  ◌≡◌, refl, Bool, true, false, not, ◌&&◌, ◌||◌, none, some, arith, ◌==◌, nat_eq, string_eq,
  option_eq, inl, inr, Bool-cases, Option-cases, update_where,
}
use fastapi_url_shortener.Core.Errors.{authorization_error, not_found_error}
use fastapi_url_shortener.Core.Action.{Result, ok, err}
use fastapi_url_shortener.Core.Settings.{Settings}
use fastapi_url_shortener.Core.World.{World}
use fastapi_url_shortener.Models.{Uuid, DateTime, ShortUrl}
use fastapi_url_shortener.Postgres.{Postgres}
use fastapi_url_shortener.Postgres.Laws.{IsPostgres}
use fastapi_url_shortener.Redis.{Redis}
use fastapi_url_shortener.Redis.Laws.{IsTextStore}
use fastapi_url_shortener.Formats.{Formats}
use fastapi_url_shortener.Repositories.ShortUrls as Repo
use fastapi_url_shortener.Repositories.BaseRepository as BaseRepo
use fastapi_url_shortener.Repositories.ShortUrls.{has_code}
use fastapi_url_shortener.Repositories.ShortUrls.WellFormed.{IsWellFormed, update-IsWellFormed}
use fastapi_url_shortener.Repositories.ShortUrls.Lookup.{get_by_id_lem}
use fastapi_url_shortener.Repositories.Query.{first_where, first_where-update_where}
use fastapi_url_shortener.UrlService.{
  UrlUpdateRequest, UrlResponse, set_fields, to_response, invalidate, update,
}
use fastapi_url_shortener.Redirect.Resolve.{IsCoherent}
use fastapi_url_shortener.UrlService.Invalidation.{
  invalidate-ok, IsCoherent-invalidate, IsAllowed, IsChanged, own_id,
}

module _ ⦃pg : Postgres⦄ ⦃r : Redis⦄ ⦃f : Formats⦄ (laws : IsPostgres pg) (texts : IsTextStore r)
    (settings : Settings) (w : World pg r) (wf : IsWellFormed (pg.short_urls.rows w.db))
    (clean : IsCoherent f w) (url_id : Uuid) (requester_id : Uuid) (is_admin : Bool) where
  module _ (d : UrlUpdateRequest) (now : DateTime) where
    abbrev pub Updated : Result UrlResponse × World pg r → Type 0
    Updated (ok response, w') =
        (u : ShortUrl) × IsAllowed (pg.short_urls.rows w.db) url_id requester_id is_admin u
        × (response ≡ to_response settings (set_fields now d u))
        × IsChanged f
            (update_where (λ v. v.id == u.id) (set_fields now d) (pg.short_urls.rows w.db))
            (pg.click_events.rows w.db) w'
    Updated (err e, w') = w' ≡ w

    same_invalidation :
        (u : ShortUrl) (s : r.Store)
        → invalidate ⦃pg = pg⦄ settings (set_fields now d u) s ≡ invalidate ⦃pg = pg⦄ settings u s
    unfolding invalidate set_fields
    same_invalidation u s = refl

    update-allowed :
        (u : ShortUrl)
        → first_where (λ v. v.id == url_id) (pg.short_urls.rows w.db) ≡ some u
        → (is_admin || u.owner_id == some requester_id) ≡ true
        → update settings url_id d requester_id is_admin now w ≡ (
          ok (to_response settings (set_fields now d u)),
          record {
            db = pg.short_urls.update (λ v. v.id == u.id) (set_fields now d) w.db;
            store = (invalidate ⦃pg = pg⦄ settings u w.store).1;
          },
        )
    unfolding update Repo.update BaseRepo.update
    update-allowed u known allowed =
        let open_guard : (not is_admin && not (u.owner_id == some requester_id)) ≡ false =
          ground arith in
        rw (
          get_by_id_lem w.db wf url_id,
          known,
          open_guard,
          same_invalidation u w.store,
          invalidate-ok settings u w.store,
        )

    update-forbidden :
        (u : ShortUrl)
        → first_where (λ v. v.id == url_id) (pg.short_urls.rows w.db) ≡ some u
        → (is_admin || u.owner_id == some requester_id) ≡ false
        → update settings url_id d requester_id is_admin now w
          ≡ (err (authorization_error "You don't own this link"), w)
    unfolding update
    update-forbidden u known forbidden =
        let shut_guard : (not is_admin && not (u.owner_id == some requester_id)) ≡ true =
          ground arith in
        rw (get_by_id_lem w.db wf url_id, known, shut_guard)

    update-missing :
        first_where (λ v. v.id == url_id) (pg.short_urls.rows w.db) ≡ none
        → update settings url_id d requester_id is_admin now w ≡ (err (not_found_error "URL"), w)
    unfolding update
    update-missing missing = rw (get_by_id_lem w.db wf url_id, missing)

    updated :
        (u : ShortUrl)
        → first_where (λ v. v.id == url_id) (pg.short_urls.rows w.db) ≡ some u
        → IsChanged {pg = pg} {r = r} f
            (update_where (λ v. v.id == u.id) (set_fields now d) (pg.short_urls.rows w.db))
            (pg.click_events.rows w.db)
            (record {
              db = pg.short_urls.update (λ v. v.id == u.id) (set_fields now d) w.db;
              store = (invalidate ⦃pg = pg⦄ settings u w.store).1;
            })
    unfolding set_fields has_code
    updated u known =
        let now_rows = laws.short_urls.rows-update (λ v. v.id == u.id) (set_fields now d) w.db in
        record {
          rows = now_rows;
          events = laws.short_urls_apart.rows-update (λ v. v.id == u.id) (set_fields now d) w.db;
          well_formed = rw now_rows (
              update-IsWellFormed (pg.short_urls.rows w.db) wf (λ v. v.id == u.id)
                (set_fields now d) (λ v. refl) (λ v. refl) (λ v. refl));
          coherent =
              IsCoherent-invalidate laws texts settings w wf clean u
                (own_id (pg.short_urls.rows w.db) url_id u known)
                (pg.short_urls.update (λ v. v.id == u.id) (set_fields now d) w.db)
                (λ c x link other. rw now_rows (
                  first_where-update_where (has_code c) (λ v. v.id == u.id) (set_fields now d)
                    (pg.short_urls.rows w.db) {x = x} (λ v. refl) link other));
        }

    -- `update` on well-formed links with a coherent cache: it ends normally only for the owner of
    -- an existing link or for an admin; then the response shows the link with the given fields set
    -- and the others kept, exactly that row is changed, the stored clicks are not, and the links are
    -- well-formed and the cache coherent; after an exception nothing has changed.
    pub update_lem : Updated (update settings url_id d requester_id is_admin now w)
    update_lem = elim (Option-cases (first_where (λ v. v.id == url_id) (pg.short_urls.rows w.db))) [
      | inl missing ↦ rw (update-missing missing) refl
      | inr (u, known) ↦ elim (Bool-cases (is_admin || u.owner_id == some requester_id)) [
        | inl allowed ↦
            rw (update-allowed u known allowed)
              (u, record { known = known; allowed = allowed }, refl, updated u known)
        | inr forbidden ↦ rw (update-forbidden u known forbidden) refl
      ]
    ]
