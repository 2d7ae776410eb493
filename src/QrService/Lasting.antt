-- ===== src/QrService/Lasting.antt =====
-- What becomes of the picture of a link when the link changes or goes.
use fastapi_url_shortener.Base.{ℕ, String}
use fastapi_url_shortener.Core.Settings.{Settings}
use fastapi_url_shortener.Core.World.{World}
use fastapi_url_shortener.Postgres.{Postgres}
use fastapi_url_shortener.Redis.{Redis}
use fastapi_url_shortener.Redis.Laws.{IsTextStore}
use fastapi_url_shortener.Formats.{Formats}
use fastapi_url_shortener.QrService.{Imaging, IsImaging, get_or_generate}

module _ ⦃pg : Postgres⦄ ⦃r : Redis⦄ ⦃f : Formats⦄ ⦃m : Imaging⦄ (imaging : IsImaging m)
    (texts : IsTextStore r) (settings : Settings) (short_code : String) (w : World pg r) where
  -- The world after `get_or_generate`, and some time later.
  abbrev pub drawn : ℕ → World pg r
  drawn t =
      let w' = (get_or_generate settings short_code w).1 in record w' { store = r.wait t w'.store }
