-- ===== src/UrlService/Get.antt =====
-- `get_by_id` of app/services/url.py.
use fastapi_url_shortener.Base.{
  ◌≡◌, true, false, not, ◌&&◌, ◌||◌, none, some, Option, arith, ◌==◌, nat_eq, option_eq,
  if◌then◌else◌, inl, inr, Bool-cases, Option-cases,
}
use fastapi_url_shortener.Core.Action.{Result, ok, err}
use fastapi_url_shortener.Core.Settings.{Settings}
use fastapi_url_shortener.Core.World.{World}
use fastapi_url_shortener.Models.{Uuid, ShortUrl}
use fastapi_url_shortener.Postgres.{Postgres}
use fastapi_url_shortener.Redis.{Redis}
use fastapi_url_shortener.Formats.{Formats}
use fastapi_url_shortener.Core.Errors.{authorization_error, not_found_error}
use fastapi_url_shortener.Repositories.ShortUrls.WellFormed.{IsWellFormed}
use fastapi_url_shortener.Repositories.ShortUrls.Lookup.{get_by_id_lem}
use fastapi_url_shortener.Repositories.Query.{first_where}
use fastapi_url_shortener.UrlService.{UrlResponse, to_response, get_by_id}

module _ ⦃pg : Postgres⦄ ⦃r : Redis⦄ ⦃f : Formats⦄ (settings : Settings) (w : World pg r)
    (wf : IsWellFormed (pg.short_urls.rows w.db)) (url_id : Uuid) (requester_id : Option Uuid) where
  -- What a requester sees of the link of the id. An owner that is None is the same as no requester.
  abbrev pub visible : Option ShortUrl → Result UrlResponse
  visible none = err (not_found_error "URL")
  visible (some u) =
      if u.is_public || u.owner_id == requester_id
      then ok (to_response settings u)
      else err (authorization_error "This link is private")

  -- `get_by_id` on well-formed links changes nothing; it shows the link of the id exactly if that
  -- is public or its owner is the requester, where a private link without an owner is shown to
  -- every visitor who has not logged in; otherwise it answers that the link is private, or that
  -- there is none.
  pub get_by_id-visible :
      get_by_id settings url_id requester_id w
      ≡ (visible (first_where (λ u. u.id == url_id) (pg.short_urls.rows w.db)), w)
  unfolding get_by_id
  get_by_id-visible =
      elim (Option-cases (first_where (λ u. u.id == url_id) (pg.short_urls.rows w.db))) [
        | inl missing ↦ rw (get_by_id_lem w.db wf url_id, missing)
        | inr (u, known) ↦ elim (Bool-cases (u.is_public || u.owner_id == requester_id)) [
          | inl shown ↦
              let open_guard : (not u.is_public && not (u.owner_id == requester_id)) ≡ false =
                ground arith in
              rw (get_by_id_lem w.db wf url_id, known, open_guard, shown)
          | inr hidden ↦
              let shut_guard : (not u.is_public && not (u.owner_id == requester_id)) ≡ true =
                ground arith in
              rw (get_by_id_lem w.db wf url_id, known, shut_guard, hidden)
        ]
      ]
