-- ===== src/RateLimiter/Window.antt =====
-- The limiter of app/cache/rate_limiter.py over a sequence of requests of one identifier and
-- endpoint.
use fastapi_url_shortener.Base.{
  ℕ, ◌+◌, ◌-◌, ◌*◌, ◌≤◌, ◌<◌, String, ◌≡◌, ◌∙◌, ap, sym, Bool, ◌&&◌, arith, ltb, leb, List, [], ◌∷◌,
  count_where, count_where_ext, count_where_mono, All, some, if◌then◌else◌, inl, inr, Option-cases,
  ◌==◌, string_eq, Bool-cases,
}
use fastapi_url_shortener.Models.{second}
use fastapi_url_shortener.Redis.{Redis}
use fastapi_url_shortener.Redis.Laws.{IsSortedSetStore}
use fastapi_url_shortener.RateLimiter.{rate_limit_key, is_allowed}
use fastapi_url_shortener.RateLimiter.Replies.{zcard-held, held_after}

-- The time `a` is in the window of width `w` that ends at `t`.
abbrev pub in_window : ℕ → ℕ → ℕ → Bool
in_window w t a = ltb t (a + w) && leb a t

abbrev times_after : ℕ → List ℕ → ℕ
times_after t log = count_where (λ a. ltb t a) log

-- One more allowed request keeps the bound, if its own window had room for it.
bound-cons :
    (w limit now : ℕ) (log : List ℕ)
    → w ≤ now
    → times_after (now - w) log < limit
    → ((t : ℕ) → count_where (in_window w t) log ≤ limit)
    → (t : ℕ) → count_where (in_window w t) (now ∷ log) ≤ limit
bound-cons w limit now log early room bound t = elim (Bool-cases (in_window w t now)) [
  | inl inside ↦ rw inside (
      omega
        (arith, count_where_mono (in_window w t) (λ a. ltb (now - w) a) (λ a h. ground arith) log))
  | inr outside ↦ rw outside (omega (arith, bound t))
]

All-le : {a b : ℕ} (log : List ℕ) → a ≤ b → All (λ t. t ≤ a) log → All (λ t. t ≤ b) log
All-le [] h all = tt
All-le (x ∷ log) h all = (omega arith, All-le log h all.1)

All-shift : (a b w : ℕ) (log : List ℕ) → a + w ≤ b → All (λ t. t ≤ a) log → All (λ t. t + w ≤ b) log
All-shift a b w [] h all = tt
All-shift a b w (x ∷ log) h all = (omega arith, All-shift a b w log h all.1)

-- No time of the log is after a bound on all of them.
times_after_none :
    (w d lo : ℕ) (log : List ℕ) → d ≤ lo + w → All (λ t. t + w ≤ d) log → times_after lo log ≡ 0
times_after_none w d lo [] h all = omega arith
times_after_none w d lo (x ∷ log) h all = ground (arith, times_after_none w d lo log h all.1)

module _ ⦃r : Redis⦄ (laws : IsSortedSetStore r) (identifier endpoint : String)
    (limit window : ℕ) where
  abbrev key : String
  key = rate_limit_key identifier endpoint

  abbrev width : ℕ
  width = window * second

  abbrev after : ℕ → r.Store → ℕ
  after t s = held_after key t s

  -- The set agrees with the log on the last window, and the key outlives its entries' windows.
  record Agrees (log : List ℕ) (s : r.Store) : Type 0 where
    late : width ≤ r.clock s
    counted : (lo : ℕ) → r.clock s ≤ lo + width → after lo s ≡ times_after lo log
    past : All (λ t. t ≤ r.clock s) log
    kept : (d : ℕ) → r.expiretime key s ≡ some d → All (λ t. t + width ≤ d) log

  counted-wait :
      (d lo : ℕ) (log : List ℕ) (s : r.Store)
      → Agrees log s
      → r.clock s + d ≤ lo + width
      → after lo (r.wait d s) ≡ times_after lo log
  counted-wait d lo log s a h = elim (Option-cases (r.expiretime key s)) [
    | inl forever ↦ ground (arith, laws.count-wait key (λ e. ltb lo e.0) d s, a.counted lo)
    | inr (t, e) ↦ ground (
      arith,
      laws.count-wait key (λ e. ltb lo e.0) d s,
      a.counted lo,
      a.kept t e,
      times_after_none width t lo log,
    )
  ]

  Agrees-wait : (d : ℕ) (log : List ℕ) (s : r.Store) → Agrees log s → Agrees log (r.wait d s)
  Agrees-wait d log s a = record {
    late = omega (arith, a.late, laws.clock-wait d s);
    counted = λ lo h. counted-wait d lo log s a (omega (arith, laws.clock-wait d s));
    past = All-le log (omega (arith, laws.clock-wait d s)) a.past;
    kept = λ t h. a.kept t (laws.expiretime-wait key d s h);
  }

  -- The store after ZREMRANGEBYSCORE, which drops what is no longer in the window.
  abbrev trimmed : r.Store → r.Store
  trimmed s = r.zremrangebyscore key (r.clock s - width) s

  after-trimmed :
      (lo : ℕ) (s : r.Store) → r.clock s ≤ lo + width → after lo (trimmed s) ≡ after lo s
  after-trimmed lo s h =
      laws.count-zremrangebyscore key (λ e. ltb lo e.0) (r.clock s - width) s
      ∙ count_where_ext (λ e. ltb (r.clock s - width) e.0 && ltb lo e.0) (λ e. ltb lo e.0)
          (λ e. ground arith) (r.zrange key s)

  Agrees-trimmed : (log : List ℕ) (s : r.Store) → Agrees log s → Agrees log (trimmed s)
  Agrees-trimmed log s a =
      let same : r.clock (trimmed s) ≡ r.clock s =
        laws.clock-zremrangebyscore key (r.clock s - width) s in
      record {
        late = rw same a.late;
        counted = λ lo h. after-trimmed lo s (rw same at h) ∙ a.counted lo (rw same at h);
        past = All-le log (omega (arith, same)) a.past;
        kept = λ t h. a.kept t (laws.expiretime-zremrangebyscore key (r.clock s - width) s h);
      }

  abbrev IsFresh : String → r.Store → Type 0
  IsFresh m s = count_where (λ e. e.1 == m) (r.zrange key s) ≡ 0

  IsFresh-trimmed : (m : String) (s : r.Store) → IsFresh m s → IsFresh m (trimmed s)
  IsFresh-trimmed m s h = omega (
    arith,
    laws.count-zremrangebyscore key (λ e. e.1 == m) (r.clock s - width) s,
    count_where_mono (λ e. ltb (r.clock s - width) e.0 && (e.1 == m)) (λ e. e.1 == m)
        (λ e p. ground arith) (r.zrange key s),
  )

  -- The store after ZADD and EXPIRE, at the time `now`.
  abbrev admitted : ℕ → String → r.Store → r.Store
  admitted now m s = r.expire key window (r.zadd key now m s)

  Agrees-admitted :
      (now : ℕ) (m : String) (log : List ℕ) (s : r.Store)
      → now ≡ r.clock s
      → 0 < window
      → IsFresh m s
      → Agrees log s
      → Agrees (now ∷ log) (admitted now m s)
  Agrees-admitted now m log s current open_window fresh a =
      let added = r.zadd key now m s in
      let same : r.clock (admitted now m s) ≡ r.clock s =
        laws.clock-expire key window added ∙ laws.clock-zadd key m now s in
      record {
        late = rw same a.late;
        counted = λ lo h. omega (
          arith,
          laws.count-expire key (λ e. ltb lo e.0) window added open_window,
          laws.count-zadd key m (λ e. ltb lo e.0) now s fresh,
          a.counted lo (rw same at h),
        );
        past = (omega (arith, same), All-le log (omega (arith, same)) a.past);
        kept = λ d h.
            let deadline : d ≡ r.clock s + width =
              laws.expiretime-expire key window added h
              ∙ ap (λ c. c + width) (laws.clock-zadd key m now s) in
            (
              omega (arith, deadline),
              All-shift (r.clock s) d width log (omega (arith, deadline)) a.past,
            );
      }

  -- A request that comes `d` microseconds later, and the times of the allowed requests.
  unfoldable pub serve : ℕ → String → List ℕ × r.Store → List ℕ × r.Store
  serve d m (log, s) =
      let s₁ = r.wait d s in
      let (reply, s₂) = is_allowed identifier limit window endpoint (r.clock s₁) m s₁ in
      (if reply.allowed then r.clock s₁ ∷ log else log, s₂)

  -- The states that requests lead to, from a store without entries for the key. Every request has
  -- a `req_id` that the set does not hold (a fresh UUID).
  pub data Reach : List ℕ × r.Store → Type 0 where
    start : (s : r.Store) → width ≤ r.clock s → r.zrange key s ≡ [] → Reach ([], s)
    request :
        {st : List ℕ × r.Store} (d : ℕ) (m : String)
        → Reach st
        → IsFresh m (r.wait d st.1)
        → Reach (serve d m st)

  abbrev IsSafe : List ℕ × r.Store → Type 0
  IsSafe (log, s) = Agrees log s × ((t : ℕ) → count_where (in_window width t) log ≤ limit)

  serve-IsSafe :
      (d : ℕ) (m : String) (log : List ℕ) (s : r.Store)
      → 0 < window
      → IsFresh m (r.wait d s)
      → IsSafe (log, s)
      → IsSafe (serve d m (log, s))
  unfolding serve is_allowed
  serve-IsSafe d m log s open_window fresh safe =
      let s₁ = r.wait d s in
      let a₁ = Agrees-wait d log s safe.0 in
      let a₂ = Agrees-trimmed log s₁ a₁ in
      let same : r.clock (trimmed s₁) ≡ r.clock s₁ =
        laws.clock-zremrangebyscore key (r.clock s₁ - width) s₁ in
      let size : r.zcard key (trimmed s₁) ≡ times_after (r.clock s₁ - width) log =
        zcard-held laws key (r.clock s₁ - width) s₁
        ∙ a₁.counted (r.clock s₁ - width) (omega arith) in
      elim (Bool-cases (leb limit (r.zcard key (trimmed s₁)))) [
        | inl full ↦ rw full (a₂, safe.1)
        | inr room ↦ rw room (
          Agrees-admitted (r.clock s₁) m log (trimmed s₁) (sym same) open_window
              (IsFresh-trimmed m s₁ fresh) a₂,
          bound-cons width limit (r.clock s₁) log a₁.late (ground (arith, size)) safe.1,
        )
      ]

  start-IsSafe : (s : r.Store) → width ≤ r.clock s → r.zrange key s ≡ [] → IsSafe ([], s)
  start-IsSafe s late empty = (
    record { late = late; counted = λ lo h. rw empty; past = tt; kept = λ d h. tt },
    λ t. omega arith,
  )

  Reach-IsSafe : {st : List ℕ × r.Store} → 0 < window → Reach st → IsSafe st
  Reach-IsSafe w (start s late empty) = start-IsSafe s late empty
  Reach-IsSafe w (request {st = st} d m reach fresh) =
      serve-IsSafe d m st.0 st.1 w fresh (Reach-IsSafe w reach)

  -- From a store that holds no entry for the key, after any sequence of requests at any distances,
  -- with fresh request ids and with the expiry of the key in between: every window of `window`
  -- seconds, wherever it ends, has at most `limit` allowed requests.
  pub allowed_in_window :
      {st : List ℕ × r.Store}
      → 0 < window
      → Reach st
      → (t : ℕ) → count_where (in_window width t) st.0 ≤ limit
  allowed_in_window w reach = (Reach-IsSafe w reach).1
