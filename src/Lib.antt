-- ===== src/Lib.antt =====
-- FastAPI URL shortener: a verification library for the service in app/.
--
-- The service shortens links (app/services/url.py), redirects visitors by short code through a
-- Redis cache in front of PostgreSQL (app/services/redirect.py, app/cache/url_cache.py), queues a
-- click for every redirect and stores the clicks in batches (app/cache/analytics_cache.py,
-- app/analytics), keeps sessions by rotating refresh tokens (app/services/auth.py) and limits
-- requests by a sliding window (app/cache/rate_limiter.py).
--
-- Modules and the code they are about:
-- Core: errors and their handlers (app/core/exceptions.py, app/main.py), settings
--   (app/core/config.py), tokens (app/core/security.py), transactions (app/db/session.py). A method
--   is an `Action S A`: a function of the state to a result or an error, and the state after it.
--   `World` is the state of a request: the database as its session sees it, and Redis.
-- Models: the rows of the tables and the constraints of their columns (app/models, app/db/base.py).
-- Postgres, Redis, Formats: the libraries that the program calls, as records of operations. `Laws`
--   (`IsFormats`) says what the program relies on; `Memory` is an instance that meets it.
-- Repositories: app/repositories. Cache: app/cache. Utils: app/utils. RateLimiter:
--   app/cache/rate_limiter.py. UrlService: app/services/url.py with app/schemas/url.py. Redirect:
--   app/services/redirect.py and the redirect endpoint of app/main.py. Analytics: app/analytics.
--   AuthService: app/services/auth.py with app/schemas/auth.py. AnalyticsService:
--   app/services/analytics.py with app/schemas/analytics.py and its endpoint. QrService:
--   app/services/qr.py and its endpoint.
-- Dependencies: app/dependencies/auth.py, who makes a request. Endpoints: app/api/v1/endpoints, each
--   handler in the session of its request, which is committed or rolled back.
-- Migrations: the statements of alembic/versions, on a database that is a parameter.
-- System: the service as a whole. `History` has the states that requests, visits with their
--   background tasks, rounds of the click worker and the passing of time lead to, one after the
--   other; `Sound` says what holds in each of them.
-- Tests: the theorems at concrete inputs.
--
-- A UUID is its number, a time is a number of microseconds. The time of the server, fresh UUIDs,
-- random draws and salts are arguments, and so is the order that PostgreSQL gives to the links of
-- one time in a page of links; groups of clicks with one count, and clicks of one time, come in
-- some fixed order. The errors of the database are one error, since the program tells none of them
-- apart. The clock of the program and the clock of Redis are one in `RateLimiter.Window`, where the
-- program gives the script its own time. Background tasks are values that run after the response.
-- The one loop with a bound is the retry of code generation, which the settings bound
-- (`max_collision_retries`); no fuel is used.
--
-- Not modelled: the interleaving of two requests or transactions (a statement runs on the database as
-- its session sees it, and a step of `History` is finished before the next begins; `Redirect.Stale`
-- is about a background task that comes late), the asyncio task of the worker and its sleeps, the
-- reload of the Redis script, logging, connections, routing and middleware, and alembic/env.py.
pub mod Base
pub mod Core
pub mod Models
pub mod Postgres
pub mod Redis
pub mod RateLimiter
pub mod Formats
pub mod Repositories
pub mod Cache
pub mod Utils
pub mod UrlService
pub mod Analytics
pub mod Redirect
pub mod AuthService
pub mod Dependencies
pub mod Endpoints
pub mod AnalyticsService
pub mod Migrations
pub mod QrService
pub mod System
pub mod Tests
