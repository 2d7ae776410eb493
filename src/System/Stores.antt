-- ===== src/System/Stores.antt =====
-- The commands on Redis that add no cached link: those of the limiter, of the click counters and of
-- the queue.
use Prim.Native.String.{◌++◌}
use fastapi_url_shortener.Base.{
  ℕ, ◌+◌, ◌*◌, ◌-◌, ◌<◌, String, ◌≡◌, ◌≢◌, refl, sym, ap, ◌∙◌, some, arith, leb, inl, inr,
  Bool-cases, Option-cases,
}
use fastapi_url_shortener.Core.Action.{attempt}
use fastapi_url_shortener.Core.Settings.{Settings}
use fastapi_url_shortener.Models.{DateTime, second}
use fastapi_url_shortener.Redis.{Redis}
use fastapi_url_shortener.Redis.Laws.{IsTextStore, IsTypedStore, is_past}
use fastapi_url_shortener.Formats.{Formats, JsonObject}
use fastapi_url_shortener.RateLimiter.{rate_limit_key, is_allowed}
use fastapi_url_shortener.Cache.UrlCache.{key, hot_key, track_click}
use fastapi_url_shortener.Cache.Prefixes.{initial, initial-append}
use fastapi_url_shortener.Cache.UrlCache.Keys.{key-ne-hot_key}
use fastapi_url_shortener.Cache.AnalyticsCache.{queue_key, push_event, pop_events}
use fastapi_url_shortener.Endpoints.{limited}

-- The keys of the limiter and of the queue begin with another letter than those of the links.
rate_limit_key-ne-key : (i e c : String) → rate_limit_key i e ≢ key c
unfolding rate_limit_key key
rate_limit_key-ne-key i e c h = ground (
  arith,
  ap initial h,
  initial-append "r" "atelimit:" (i ++ ":" ++ e),
  initial-append "u" "rl:" c,
)

queue_key-ne-key : (c : String) → queue_key ≢ key c
unfolding key
queue_key-ne-key c h = ground (arith, ap initial h, initial-append "u" "rl:" c)

hot_key-ne-key : (d c : String) → hot_key d ≢ key c
hot_key-ne-key d c h = key-ne-hot_key c d (sym h)

module _ ⦃r : Redis⦄ where
  -- The cached links are the same.
  abbrev pub Same : r.Store → r.Store → Type 0
  Same s s' = (c : String) → r.get (key c) s' ≡ r.get (key c) s

module _ ⦃r : Redis⦄ (texts : IsTextStore r) (typed : IsTypedStore r) where
  pub is_allowed-Same :
      (i : String) (limit window : ℕ) (e : String) (now : DateTime) (m : String) (s : r.Store)
      → 0 < window
      → Same s (is_allowed i limit window e now m s).1
  unfolding is_allowed
  is_allowed-Same i limit window e now m s open_window c =
      let k = rate_limit_key i e in
      let s₁ = r.zremrangebyscore k (now - window * second) s in
      let trimmed =
        typed.get-zremrangebyscore (key c) k (now - window * second) s
          (rate_limit_key-ne-key i e c) in
      elim (Bool-cases (leb limit (r.zcard k s₁))) [
        | inl full ↦ rw full trimmed
        | inr room ↦ rw room (
            texts.get-expire (key c) k window (r.zadd k now m s₁) open_window
            ∙ typed.get-zadd (key c) k m now s₁ (rate_limit_key-ne-key i e c)
            ∙ trimmed)
      ]

  pub limited-Same :
      (i : String) (limit window : ℕ) (e message : String) (now : DateTime) (m : String)
      (s : r.Store)
      → 0 < window
      → Same s (limited i limit window e message now m s).1
  unfolding limited
  limited-Same i limit window e message now m s h = is_allowed-Same i limit window e now m s h

  module _ ⦃f : Formats⦄ (settings : Settings) (open_cache : 0 < settings.url_cache_ttl) where
    pub track_click-Same : (code : String) (s : r.Store) → Same s (track_click settings code s).1
    unfolding track_click
    track_click-Same code s c =
        let (count, s₁) = r.incr (hot_key code) s in
        let s₂ = r.expire (hot_key code) 3600 s₁ in
        let counted =
          texts.get-expire (key c) (hot_key code) 3600 s₁ (omega arith)
          ∙ texts.get-incr (key c) (hot_key code) s (hot_key-ne-key code c) in
        elim (Bool-cases (leb settings.hot_url_click_threshold count)) [
          | inl hot ↦ rw hot (
              texts.get-expire (key c) (key code) (settings.url_cache_ttl * 2) s₂ (omega arith)
              ∙ counted)
          | inr cold ↦ rw cold counted
        ]

  module _ ⦃f : Formats⦄ where
    pub push_event-Same : (d : JsonObject) (s : r.Store) → Same s (push_event d s).1
    unfolding push_event
    push_event-Same d s c = elim (Option-cases (r.rpush queue_key (f.dumps d) s)) [
      | inl refused ↦ rw (refused, attempt) refl
      | inr (s', pushed) ↦
          rw (pushed, attempt)
            (typed.get-rpush (key c) queue_key (f.dumps d) s s' (queue_key-ne-key c) pushed)
    ]

    pub pop_events-Same : (n : ℕ) (s : r.Store) → Same s (pop_events n s).1
    unfolding pop_events
    pop_events-Same n s c = elim (Option-cases (r.lmpop_left queue_key n s)) [
      | inl empty ↦ rw empty refl
      | inr ((raws, s'), popped) ↦
          rw popped (typed.get-lmpop_left (key c) queue_key n s s' raws (queue_key-ne-key c) popped)
    ]

  -- Time only takes links away.
  pub wait-Fewer :
      (d : ℕ) (s : r.Store) (c raw : String)
      → r.get (key c) (r.wait d s) ≡ some raw
      → r.get (key c) s ≡ some raw
  wait-Fewer d s c raw hit = elim (Bool-cases (is_past (r.expiretime (key c) s) (r.clock s + d))) [
    | inl gone ↦ cc (rw (texts.get-wait (key c) d s, gone) at hit)
    | inr there ↦ rw (texts.get-wait (key c) d s, there) at hit
  ]
