-- ===== src/RateLimiter/Replies.antt =====
-- The answers of `is_allowed` in app/cache/rate_limiter.py.
use fastapi_url_shortener.Base.{
  ℕ, ◌+◌, ◌-◌, ◌*◌, ◌≤◌, ◌<◌, String, ◌≡◌, ◌↔◌, ◌∙◌, sym, true, false, ◌&&◌, arith, ltb,
  count_where, count_where_all, count_where_ext,
}
use fastapi_url_shortener.Models.{second}
use fastapi_url_shortener.Redis.{Redis}
use fastapi_url_shortener.Redis.Laws.{IsSortedSetStore}
use fastapi_url_shortener.RateLimiter.{Reply, rate_limit_key, is_allowed}

-- How many requests the set of a key holds that came after a time.
abbrev pub held_after : ⦃r : Redis⦄ → String → ℕ → r.Store → ℕ
held_after ⦃r⦄ key t s = count_where (λ e. ltb t e.0) (r.zrange key s)

module _ ⦃r : Redis⦄ (laws : IsSortedSetStore r) where
  -- What ZCARD counts after ZREMRANGEBYSCORE.
  pub zcard-held :
      (key : String) (t : ℕ) (s : r.Store)
      → r.zcard key (r.zremrangebyscore key t s) ≡ held_after key t s
  zcard-held key t s =
      laws.zcard-zrange key (r.zremrangebyscore key t s)
      ∙ sym (count_where_all (r.zrange key (r.zremrangebyscore key t s)))
      ∙ laws.count-zremrangebyscore key (λ _. true) t s
      ∙ count_where_ext (λ e. ltb t e.0 && true) (λ e. ltb t e.0) (λ e. ground arith)
          (r.zrange key s)

  module _ (identifier endpoint req_id : String) (limit window now : ℕ) (s : r.Store) where
    abbrev reply : Reply
    reply = (is_allowed identifier limit window endpoint now req_id s).0

    abbrev held : ℕ
    held = held_after (rate_limit_key identifier endpoint) (now - window * second) s

    -- A request is allowed exactly when the set of its key holds fewer than `limit` requests of the
    -- window that ends now; then `remaining` is what is left of the limit after it and `reset_after`
    -- is the window, and otherwise `remaining` is 0.
    pub is_allowed_iff :
        ((reply.allowed ≡ true) ↔ (held < limit))
        × (held < limit → (reply.remaining + held + 1 ≡ limit) × (reply.reset_after ≡ window))
        × (limit ≤ held → reply.remaining ≡ 0)
    unfolding is_allowed
    is_allowed_iff =
        let count = zcard-held (rate_limit_key identifier endpoint) (now - window * second) s in
        (
          (λ h. ground (arith, count), λ h. ground (arith, count)),
          λ h. ground (arith, count),
          λ h. ground (arith, count),
        )

    -- Once the clock has passed one window, every refusal names 1 second as the time to the reset,
    -- whatever the window and however recent the requests that fill it.
    pub refused_reset_after : window * second ≤ now → reply.allowed ≡ false → reply.reset_after ≡ 1
    unfolding is_allowed
    refused_reset_after past refused = ground arith
