-- ===== src/Endpoints/Health.antt =====
-- app/api/v1/endpoints/health.py. A probe is the text of the exception that it raised, if it did.
use Prim.Native.String.{◌++◌}
use fastapi_url_shortener.Base.{String, Bool, Option, none, some, if◌then◌else◌}

pub record Status : Type 0 where
  pub api : String
  pub database : String
  pub redis : String

-- `f"error: {exc}" if settings.DEBUG else "error"`
abbrev pub probed : Bool → Option String → String
probed debug none = "ok"
probed debug (some exc) = if debug then "error: " ++ exc else "error"

-- `health`, with what `SELECT 1` and PING raised
unfoldable pub health : Bool → Option String → Option String → Status
health debug select_1 ping = record {
  api = "ok";
  database = probed debug select_1;
  redis = probed debug ping;
}
