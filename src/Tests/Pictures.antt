-- ===== src/Tests/Pictures.antt =====
-- The pictures of links at concrete inputs: a picture is the URL that it shows.
use fastapi_url_shortener.Base.{
  ℕ, ◌*◌, String, ◌≡◌, refl, ap, arith, none, some, false, ◌==◌, string_eq, eq_iff, inl, inr,
  Bool-cases,
}
use fastapi_url_shortener.Core.Action.{ok}
use fastapi_url_shortener.Core.Settings.{default_settings}
use fastapi_url_shortener.Redis.Memory.{memory_redis, memory-IsTextStore}
use fastapi_url_shortener.Core.World.{World}
use fastapi_url_shortener.Formats.Memory.{memory_formats}
use fastapi_url_shortener.QrService.{Imaging, IsImaging, get_or_generate}
use fastapi_url_shortener.QrService.Image.{picture, kept, link_with, get_or_generate_lem}
use fastapi_url_shortener.QrService.Lasting.{drawn}
use fastapi_url_shortener.Models.{second}
use fastapi_url_shortener.UrlService.{UrlUpdateRequest, update, delete}
use fastapi_url_shortener.Postgres.Memory.{memory}
use fastapi_url_shortener.Core.Errors.{not_found_error}
use fastapi_url_shortener.Core.Action.{err}
use fastapi_url_shortener.Tests.Data.{one_link, one_link-IsWellFormed, world_of}

instance abbrev pub plain_pictures : Imaging
plain_pictures = record {
  Bytes = String;
  render = λ url. url;
  b64encode = λ b. String.◌∷◌ "b" b;
  b64decode = λ s. elim s [ String.[] ↦ none | String.◌∷◌ c rest ↦ some rest ];
}

abbrev measure : String → ℕ
measure String.[] = 0
measure (String.◌∷◌ c s) = 1

marked : (s : String) → (String.◌∷◌ "b" s == "") ≡ false
marked s = elim (Bool-cases (String.◌∷◌ "b" s == "")) [
  | inl empty ↦ ground (arith, ap measure ((eq_iff (String.◌∷◌ "b" s) "").0 empty))
  | inr other ↦ other
]

plain_pictures-IsImaging : IsImaging plain_pictures
plain_pictures-IsImaging = record {
  b64decode-b64encode = λ b. refl;
  b64encode_nonempty = λ url. marked url;
}

get_or_generate_lem_example :
    get_or_generate default_settings "abc1234" (world_of one_link)
    ≡ (elim (link_with default_settings "abc1234" one_link) [
      | none ↦ (err (not_found_error "Short URL"), world_of one_link)
      | some u ↦ (
        ok (picture default_settings "abc1234" u),
        record (world_of one_link) {
          store = kept default_settings "abc1234" u (world_of one_link).store;
        },
      )
    ])
get_or_generate_lem_example =
    get_or_generate_lem default_settings "abc1234" (world_of one_link) one_link-IsWellFormed refl

abbrev renamed : UrlUpdateRequest
renamed = record {
  title = some "news";
  expires_at = none;
  is_active = some false;
  is_public = none;
}

-- An hour later, before and after the link is gone.
abbrev drawn_world : World memory memory_redis
drawn_world =
    drawn plain_pictures-IsImaging memory-IsTextStore default_settings "abc1234" (world_of one_link)
      (3600 * second)

abbrev edited_world : World memory memory_redis
edited_world = (update default_settings 2 renamed 1 false 9 drawn_world).1

abbrev deleted_world : World memory memory_redis
deleted_world = (delete default_settings 2 1 false drawn_world).1
