-- ===== src/UrlService/Delete.antt =====
-- `delete` of app/services/url.py.
use fastapi_url_shortener.Base.{
  ◌≡◌, refl, Bool, true, false, not, ◌&&◌, ◌||◌, none, some, arith, ◌==◌, nat_eq, string_eq,
  option_eq, inl, inr, Bool-cases, Option-cases, select, any, List,
}
use fastapi_url_shortener.Core.Errors.{authorization_error, not_found_error}
use fastapi_url_shortener.Core.Action.{Result, ok, err}
use fastapi_url_shortener.Core.Settings.{Settings}
use fastapi_url_shortener.Core.World.{World}
use fastapi_url_shortener.Models.{Uuid, ShortUrl, ClickEvent}
use fastapi_url_shortener.Postgres.{Postgres}
use fastapi_url_shortener.Postgres.Laws.{IsPostgres}
use fastapi_url_shortener.Redis.{Redis}
use fastapi_url_shortener.Redis.Laws.{IsTextStore}
use fastapi_url_shortener.Formats.{Formats}
use fastapi_url_shortener.Repositories.ShortUrls as Repo
use fastapi_url_shortener.Repositories.BaseRepository as BaseRepo
use fastapi_url_shortener.Repositories.ShortUrls.{has_code}
use fastapi_url_shortener.Repositories.ShortUrls.WellFormed.{IsWellFormed, delete-IsWellFormed}
use fastapi_url_shortener.Repositories.ShortUrls.Lookup.{get_by_id_lem}
use fastapi_url_shortener.Repositories.Query.{first_where, first_where-select}
use fastapi_url_shortener.UrlService.{invalidate, delete}
use fastapi_url_shortener.Redirect.Resolve.{IsCoherent}
use fastapi_url_shortener.UrlService.Invalidation.{
  invalidate-ok, IsCoherent-invalidate, IsAllowed, IsChanged, own_id,
}

module _ ⦃pg : Postgres⦄ ⦃r : Redis⦄ ⦃f : Formats⦄ (laws : IsPostgres pg) (texts : IsTextStore r)
    (settings : Settings) (w : World pg r) (wf : IsWellFormed (pg.short_urls.rows w.db))
    (clean : IsCoherent f w) (url_id : Uuid) (requester_id : Uuid) (is_admin : Bool) where
  -- The clicks that are left once the rows with an id are gone.
  abbrev pub clicks_without : Uuid → List ClickEvent
  clicks_without i =
      select
        (λ e. not (any (λ v. (v.id == i) && (v.id == e.short_url_id)) (pg.short_urls.rows w.db)))
        (pg.click_events.rows w.db)

  abbrev pub Deleted : Result Unit × World pg r → Type 0
  Deleted (ok _, w') =
      (u : ShortUrl) × IsAllowed (pg.short_urls.rows w.db) url_id requester_id is_admin u
      × IsChanged f (select (λ v. not (v.id == u.id)) (pg.short_urls.rows w.db))
          (clicks_without u.id) w'
  Deleted (err e, w') = w' ≡ w

  delete-allowed :
      (u : ShortUrl)
      → first_where (λ v. v.id == url_id) (pg.short_urls.rows w.db) ≡ some u
      → (is_admin || u.owner_id == some requester_id) ≡ true
      → delete settings url_id requester_id is_admin w ≡ (
        ok tt,
        record {
          db = pg.short_urls.delete (λ v. v.id == u.id) w.db;
          store = (invalidate ⦃pg = pg⦄ settings u w.store).1;
        },
      )
  unfolding delete Repo.delete BaseRepo.delete
  delete-allowed u known allowed =
      let open_guard : (not is_admin && not (u.owner_id == some requester_id)) ≡ false =
        ground arith in
      rw (get_by_id_lem w.db wf url_id, known, open_guard, invalidate-ok settings u w.store)

  delete-forbidden :
      (u : ShortUrl)
      → first_where (λ v. v.id == url_id) (pg.short_urls.rows w.db) ≡ some u
      → (is_admin || u.owner_id == some requester_id) ≡ false
      → delete settings url_id requester_id is_admin w
        ≡ (err (authorization_error "You don't own this link"), w)
  unfolding delete
  delete-forbidden u known forbidden =
      let shut_guard : (not is_admin && not (u.owner_id == some requester_id)) ≡ true =
        ground arith in
      rw (get_by_id_lem w.db wf url_id, known, shut_guard)

  delete-missing :
      first_where (λ v. v.id == url_id) (pg.short_urls.rows w.db) ≡ none
      → delete settings url_id requester_id is_admin w ≡ (err (not_found_error "URL"), w)
  unfolding delete
  delete-missing missing = rw (get_by_id_lem w.db wf url_id, missing)

  deleted :
      (u : ShortUrl)
      → first_where (λ v. v.id == url_id) (pg.short_urls.rows w.db) ≡ some u
      → IsChanged {pg = pg} {r = r} f
          (select (λ v. not (v.id == u.id)) (pg.short_urls.rows w.db))
          (clicks_without u.id)
          (record {
            db = pg.short_urls.delete (λ v. v.id == u.id) w.db;
            store = (invalidate ⦃pg = pg⦄ settings u w.store).1;
          })
  deleted u known =
      let now_rows = laws.short_urls.rows-delete (λ v. v.id == u.id) w.db in
      record {
        rows = now_rows;
        events = laws.click_events-delete_short_urls (λ v. v.id == u.id) w.db;
        well_formed =
            rw now_rows
              (delete-IsWellFormed (pg.short_urls.rows w.db) wf (λ v. not (v.id == u.id)));
        coherent =
            IsCoherent-invalidate laws texts settings w wf clean u
              (own_id (pg.short_urls.rows w.db) url_id u known)
              (pg.short_urls.delete (λ v. v.id == u.id) w.db)
              (λ c x link other. rw now_rows (
                first_where-select (has_code c) (λ v. v.id == u.id) (pg.short_urls.rows w.db)
                  {x = x} link other));
      }

  -- `delete` on well-formed links with a coherent cache: it ends normally only for the owner of an
  -- existing link or for an admin; then exactly the row of the link is gone, and with it
  -- exactly the stored clicks of the link, and the links are well-formed and the cache coherent;
  -- after an exception nothing has changed.
  pub delete_lem : Deleted (delete settings url_id requester_id is_admin w)
  delete_lem = elim (Option-cases (first_where (λ v. v.id == url_id) (pg.short_urls.rows w.db))) [
    | inl missing ↦ rw (delete-missing missing) refl
    | inr (u, known) ↦ elim (Bool-cases (is_admin || u.owner_id == some requester_id)) [
      | inl allowed ↦
          rw (delete-allowed u known allowed)
            (u, record { known = known; allowed = allowed }, deleted u known)
      | inr forbidden ↦ rw (delete-forbidden u known forbidden) refl
    ]
  ]
