-- ===== src/Redis.antt =====
-- The Redis server behind redis-py, as a parameter: the commands that the program sends. `Memory`
-- is an instance.
pub mod Memory
pub mod Laws
pub mod Deadlines
use fastapi_url_shortener.Base.{ℕ, String, Option, List}

pub record Redis : Type 1 where
  pub Store : Type 0
  -- the server's clock, in microseconds, and the passing of time, which drops keys
  pub clock : Store → ℕ
  pub wait : ℕ → Store → Store
  -- EXPIRETIME, in microseconds: when the key is dropped
  pub expiretime : String → Store → Option ℕ
  pub get : String → Store → Option String
  pub setex : String → ℕ → String → Store → Store
  pub delete : List String → Store → Store
  pub incr : String → Store → ℕ × Store
  pub expire : String → ℕ → Store → Store
  -- LRANGE key 0 -1; RPUSH, or none where redis-py raises; LMPOP 1 key LEFT COUNT n; LLEN
  pub lrange : String → Store → List String
  pub rpush : String → String → Store → Option Store
  pub lmpop_left : String → ℕ → Store → Option (List String × Store)
  pub llen : String → Store → ℕ
  -- ZRANGE key 0 -1 WITHSCORES, as (score, member)
  pub zrange : String → Store → List (ℕ × String)
  -- ZREMRANGEBYSCORE key -inf max
  pub zremrangebyscore : String → ℕ → Store → Store
  pub zcard : String → Store → ℕ
  pub zadd : String → ℕ → String → Store → Store
