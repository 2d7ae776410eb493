-- ===== src/QrService/Image.antt =====
-- `get_or_generate` of app/services/qr.py: the picture of a link, drawn and drawn again.
use fastapi_url_shortener.Base.{
  String, ◌≡◌, option_eq, Option, none, some, ◌==◌, string_eq, inl, inr, Option-cases,
}
use fastapi_url_shortener.Core.Errors.{not_found_error}
use fastapi_url_shortener.Core.Action.{ok, err}
use fastapi_url_shortener.Core.Settings.{Settings}
use fastapi_url_shortener.Core.World.{World}
use fastapi_url_shortener.Models.{ShortUrl}
use fastapi_url_shortener.Postgres.{Postgres}
use fastapi_url_shortener.Redis.{Redis}
use fastapi_url_shortener.Formats.{Formats}
use fastapi_url_shortener.Repositories.Query.{first_where}
use fastapi_url_shortener.Repositories.ShortUrls.Lookup.{get_by_short_code_lem}
use fastapi_url_shortener.Repositories.ShortUrls.WellFormed.{IsWellFormed}
use fastapi_url_shortener.UrlService.{to_response}
use fastapi_url_shortener.QrService.{Imaging, IsImaging, qr_key, generate, get_or_generate}

module _ ⦃pg : Postgres⦄ ⦃r : Redis⦄ ⦃f : Formats⦄ ⦃m : Imaging⦄ (settings : Settings)
    (code : String) where
  -- The picture of the short URL that the API reports for the link.
  abbrev pub picture : ShortUrl → m.Bytes
  picture u = m.render (to_response settings u).short_url

  abbrev pub kept : ShortUrl → r.Store → r.Store
  kept u = r.setex (qr_key code) settings.qr_cache_ttl (m.b64encode (picture u))

  -- The link with the short code.
  abbrev pub link_with : pg.Db → Option ShortUrl
  link_with db = first_where (λ u. u.short_code == code) (pg.short_urls.rows db)

  -- Where nothing is cached, the picture is that of the short URL which the API reports for the
  -- link with the code, and is kept; NotFoundError is raised where there is no such link, and
  -- nothing is kept.
  pub get_or_generate_lem :
      (w : World pg r)
      → IsWellFormed (pg.short_urls.rows w.db)
      → r.get (qr_key code) w.store ≡ none
      → get_or_generate settings code w ≡ (elim (link_with w.db) [
        | none ↦ (err (not_found_error "Short URL"), w)
        | some u ↦ (ok (picture u), record w { store = kept u w.store })
      ])
  unfolding get_or_generate generate to_response
  get_or_generate_lem w wf miss = elim (Option-cases (link_with w.db)) [
    | inl missing ↦ rw (miss, get_by_short_code_lem w.db wf code, missing)
    | inr (u, found) ↦ rw (miss, get_by_short_code_lem w.db wf code, found)
  ]

  -- A picture that Redis holds comes back.
  pub get_or_generate-held :
      (imaging : IsImaging m) (u : ShortUrl) (w : World pg r)
      → r.get (qr_key code) w.store ≡ some (m.b64encode (picture u))
      → get_or_generate settings code w ≡ (ok (picture u), w)
  unfolding get_or_generate to_response
  get_or_generate-held imaging u w held = rw (
    held,
    imaging.b64encode_nonempty (to_response settings u).short_url,
    imaging.b64decode-b64encode (picture u),
  )
