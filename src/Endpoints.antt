-- ===== src/Endpoints.antt =====
-- app/api/v1/endpoints: the handlers of the API, each with the dependencies that FastAPI runs for it.
-- FastAPI checks the request against the schema before; its answers to bad requests are not modelled.
pub mod Urls
pub mod Auth
pub mod Health
use fastapi_url_shortener.Base.{ℕ, String, if◌then◌else◌}
use fastapi_url_shortener.Core.Errors.{rate_limit_error}
use fastapi_url_shortener.Core.Action.{Result, ok, err, Action}
use fastapi_url_shortener.Core.Session.{settle}
use fastapi_url_shortener.Core.World.{World}
use fastapi_url_shortener.Models.{DateTime}
use fastapi_url_shortener.Postgres.{Postgres}
use fastapi_url_shortener.Redis.{Redis}
use fastapi_url_shortener.RateLimiter.{is_allowed}

-- A handler in the session of `get_db_session`: what it wrote to Redis stays, also where the
-- database is rolled back.
unfoldable pub in_session :
    ⦃pg : Postgres⦄ ⦃r : Redis⦄ {A : Type 0} → Action (World pg r) A → Action (World pg r) A
in_session work w =
    let (a, w') = work w in (a, record { db = (settle w.db (a, w'.db)).1; store = w'.store })

-- `if not allowed: raise RateLimitError(…)` on the answer of the limiter
unfoldable pub limited :
    ⦃r : Redis⦄ → String → ℕ → ℕ → String → String → DateTime → String → Action r.Store Unit
limited identifier limit window endpoint message now req_id s =
    let (reply, s') = is_allowed identifier limit window endpoint now req_id s in
    (if reply.allowed then ok tt else err (rate_limit_error message), s')
