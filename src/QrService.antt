-- ===== src/QrService.antt =====
-- app/services/qr.py and app/api/v1/endpoints/qr.py. The drawing of a code as a PNG file, by the
-- libraries qrcode and Pillow, and base64 are parameters.
pub mod Image
pub mod Lasting
use Prim.Native.String.{◌++◌}
use fastapi_url_shortener.Base.{
  String, ◌≡◌, Bool, false, Option, none, some, List, [], ◌∷◌, ◌==◌, string_eq, if◌then◌else◌,
}
use fastapi_url_shortener.Core.Errors.{not_found_error, value_error}
use fastapi_url_shortener.Core.Action.{
  Action, pure, or_raise, reads, modify, ok, resume, ◌>>=◌, ◌>>◌,
}
use fastapi_url_shortener.Core.Settings.{Settings}
use fastapi_url_shortener.Core.World.{World, on_db, on_store}
use fastapi_url_shortener.Postgres.{Postgres}
use fastapi_url_shortener.Redis.{Redis}
use fastapi_url_shortener.Repositories.ShortUrls.{get_by_short_code}
use fastapi_url_shortener.UrlService.{alias_or_code}
use fastapi_url_shortener.Endpoints.{in_session}

pub record Imaging : Type 1 where
  pub Bytes : Type 0
  -- `_render`
  pub render : String → Bytes
  -- `base64.b64encode(b).decode()`, and `base64.b64decode(s)`, none where it raises
  pub b64encode : Bytes → String
  pub b64decode : String → Option Bytes

-- What comes back is what was written, and no picture is an empty file.
pub record IsImaging (m : Imaging) : Type 0 where
  pub b64decode-b64encode : (b : m.Bytes) → m.b64decode (m.b64encode b) ≡ some b
  pub b64encode_nonempty : (url : String) → (m.b64encode (m.render url) == "") ≡ false

-- `f"{_QR_PREFIX}{short_code}"`
unfoldable pub qr_key : String → String
qr_key short_code = "qr:" ++ short_code

-- `Response`
pub record ImageResponse (m : Imaging) : Type 0 where
  pub content : m.Bytes
  pub media_type : String
  pub content_disposition : String

module _ ⦃pg : Postgres⦄ ⦃r : Redis⦄ ⦃m : Imaging⦄ (settings : Settings) where
  -- `get_or_generate`, where the cache has nothing
  unfoldable pub generate : String → Action (World pg r) m.Bytes
  generate short_code = do
    url ← or_raise (← on_db (get_by_short_code short_code)) (not_found_error "Short URL")
    on_store (
        modify (
          r.setex (qr_key short_code) settings.qr_cache_ttl
            (m.b64encode (m.render (settings.base_url ++ "/" ++ alias_or_code url)))))
    pure (m.render (settings.base_url ++ "/" ++ alias_or_code url))

  -- `if cached: return base64.b64decode(cached)`
  abbrev pub cached_or : Option String → Action (World pg r) m.Bytes → Action (World pg r) m.Bytes
  cached_or none fresh = fresh
  cached_or (some raw) fresh = if raw == "" then fresh else or_raise (m.b64decode raw) value_error

  -- `get_or_generate`
  unfoldable pub get_or_generate : String → Action (World pg r) m.Bytes
  get_or_generate short_code = do
    cached ← on_store (reads (λ s. ok (r.get (qr_key short_code) s)))
    cached_or cached (generate short_code)

  -- `invalidate`
  unfoldable pub invalidate : String → Action r.Store Unit
  invalidate short_code = modify (r.delete (qr_key short_code ∷ []))

  -- the endpoint `get_qr_code`
  unfoldable pub get_qr_code : String → Action (World pg r) (ImageResponse m)
  get_qr_code short_code = in_session (do
    png_bytes ← get_or_generate short_code
    pure (record {
      content = png_bytes;
      media_type = "image/png";
      content_disposition = "attachment; filename=\"" ++ short_code ++ ".png\"";
    }))
