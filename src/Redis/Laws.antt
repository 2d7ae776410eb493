-- ===== src/Redis/Laws.antt =====
-- What the program relies on of Redis, by the type of the value at a key. Times are microseconds,
-- and a time to live is in seconds.
use fastapi_url_shortener.Base.{
  ℕ, ◌+◌, ◌*◌, ◌<◌, String, ◌≡◌, ◌≢◌, Bool, false, ◌&&◌, Option, none, some, List, [], ◌∷◌, ◌++◌,
  ltb, leb, ◌==◌, if◌then◌else◌, string_eq, length, take, drop, count_where, contains,
}
use fastapi_url_shortener.Models.{second}
use fastapi_url_shortener.Redis.{Redis}

-- The key has a deadline that `now` has reached.
abbrev pub is_past : Option ℕ → ℕ → Bool
is_past none now = false
is_past (some d) now = leb d now

-- Texts: GET, SETEX, DEL, INCR, EXPIRE.
pub record IsTextStore (r : Redis) : Type 0 where
  pub get-setex :
      (j k v : String) (ttl : ℕ) (s : r.Store)
      → 0 < ttl
      → r.get j (r.setex k ttl v s) ≡ (if k == j then some v else r.get j s)
  pub get-delete :
      (j : String) (ks : List String) (s : r.Store)
      → r.get j (r.delete ks s) ≡ (if contains ks j then none else r.get j s)
  pub get-incr : (j k : String) (s : r.Store) → k ≢ j → r.get j (r.incr k s).1 ≡ r.get j s
  pub get-expire :
      (j k : String) (ttl : ℕ) (s : r.Store) → 0 < ttl → r.get j (r.expire k ttl s) ≡ r.get j s
  pub get-wait :
      (j : String) (d : ℕ) (s : r.Store)
      → r.get j (r.wait d s)
        ≡ (if is_past (r.expiretime j s) (r.clock s + d) then none else r.get j s)
  pub expiretime-setex :
      (k v : String) (ttl : ℕ) (s : r.Store)
      → 0 < ttl
      → r.expiretime k (r.setex k ttl v s) ≡ some (r.clock s + ttl * second)
  pub clock-setex : (k v : String) (ttl : ℕ) (s : r.Store) → r.clock (r.setex k ttl v s) ≡ r.clock s

-- Lists: RPUSH, LMPOP, LLEN.
pub record IsListStore (r : Redis) : Type 0 where
  pub lrange-rpush :
      (k v : String) (s s' : r.Store)
      → r.rpush k v s ≡ some s'
      → r.lrange k s' ≡ r.lrange k s ++ v ∷ []
  pub lmpop_left-none :
      (k : String) (n : ℕ) (s : r.Store) → r.lmpop_left k n s ≡ none → r.lrange k s ≡ []
  pub lmpop_left-some :
      (k : String) (n : ℕ) (s s' : r.Store) (es : List String)
      → r.lmpop_left k n s ≡ some (es, s')
      → (es ≡ take n (r.lrange k s)) × (r.lrange k s' ≡ drop n (r.lrange k s))
  pub llen-lrange : (k : String) (s : r.Store) → r.llen k s ≡ length (r.lrange k s)

-- Sorted sets: ZREMRANGEBYSCORE, ZCARD, ZADD, with EXPIRE on their keys. The order of the entries
-- is not used: they are counted.
pub record IsSortedSetStore (r : Redis) : Type 0 where
  pub zcard-zrange : (k : String) (s : r.Store) → r.zcard k s ≡ length (r.zrange k s)
  pub count-zremrangebyscore :
      (k : String) (p : ℕ × String → Bool) (max : ℕ) (s : r.Store)
      → count_where p (r.zrange k (r.zremrangebyscore k max s))
        ≡ count_where (λ e. ltb max e.0 && p e) (r.zrange k s)
  -- a member that the set does not hold
  pub count-zadd :
      (k m : String) (p : ℕ × String → Bool) (score : ℕ) (s : r.Store)
      → count_where (λ e. e.1 == m) (r.zrange k s) ≡ 0
      → count_where p (r.zrange k (r.zadd k score m s))
        ≡ (if p (score, m) then 1 else 0) + count_where p (r.zrange k s)
  pub count-expire :
      (k : String) (p : ℕ × String → Bool) (ttl : ℕ) (s : r.Store)
      → 0 < ttl
      → count_where p (r.zrange k (r.expire k ttl s)) ≡ count_where p (r.zrange k s)
  pub count-wait :
      (k : String) (p : ℕ × String → Bool) (d : ℕ) (s : r.Store)
      → count_where p (r.zrange k (r.wait d s))
        ≡ (if is_past (r.expiretime k s) (r.clock s + d) then 0 else count_where p (r.zrange k s))
  pub expiretime-wait :
      (k : String) (d : ℕ) (s : r.Store) {t : ℕ}
      → r.expiretime k (r.wait d s) ≡ some t
      → r.expiretime k s ≡ some t
  pub expiretime-zremrangebyscore :
      (k : String) (max : ℕ) (s : r.Store) {t : ℕ}
      → r.expiretime k (r.zremrangebyscore k max s) ≡ some t
      → r.expiretime k s ≡ some t
  pub expiretime-expire :
      (k : String) (ttl : ℕ) (s : r.Store) {t : ℕ}
      → r.expiretime k (r.expire k ttl s) ≡ some t
      → t ≡ r.clock s + ttl * second
  pub clock-wait : (d : ℕ) (s : r.Store) → r.clock (r.wait d s) ≡ r.clock s + d
  pub clock-zremrangebyscore :
      (k : String) (max : ℕ) (s : r.Store) → r.clock (r.zremrangebyscore k max s) ≡ r.clock s
  pub clock-zadd :
      (k m : String) (score : ℕ) (s : r.Store) → r.clock (r.zadd k score m s) ≡ r.clock s
  pub clock-expire : (k : String) (ttl : ℕ) (s : r.Store) → r.clock (r.expire k ttl s) ≡ r.clock s

-- A command on a list or a sorted set leaves the text at another key alone.
pub record IsTypedStore (r : Redis) : Type 0 where
  pub get-rpush :
      (j k v : String) (s s' : r.Store) → k ≢ j → r.rpush k v s ≡ some s' → r.get j s' ≡ r.get j s
  pub get-lmpop_left :
      (j k : String) (n : ℕ) (s s' : r.Store) (es : List String)
      → k ≢ j
      → r.lmpop_left k n s ≡ some (es, s')
      → r.get j s' ≡ r.get j s
  pub get-zremrangebyscore :
      (j k : String) (max : ℕ) (s : r.Store)
      → k ≢ j
      → r.get j (r.zremrangebyscore k max s) ≡ r.get j s
  pub get-zadd :
      (j k m : String) (score : ℕ) (s : r.Store) → k ≢ j → r.get j (r.zadd k score m s) ≡ r.get j s
