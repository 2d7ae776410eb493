-- ===== src/Redis/Memory.antt =====
-- A keyspace as functions: an instance of the interface, for tests. Texts, lists and sorted sets
-- have a keyspace each.
use fastapi_url_shortener.Base.{
  ℕ, ◌+◌, ◌*◌, String, ◌≡◌, refl, Bool, not, ◌&&◌, Option, none, some, List, [], ◌∷◌, ◌++◌, arith,
  ltb, ◌==◌, if◌then◌else◌, string_eq, eq_iff, ==_refl, length, take, drop, select, count_where,
  contains,
}
use fastapi_url_shortener.Models.{second}
use fastapi_url_shortener.Redis.{Redis}
use fastapi_url_shortener.Redis.Laws.{
  is_past, IsTextStore, IsTypedStore, IsListStore, IsSortedSetStore,
}

pub record MemoryStore : Type 0 where
  pub clock : ℕ
  pub expiretimes : String → Option ℕ
  pub texts : String → Option String
  pub counters : String → ℕ
  pub lists : String → List String
  pub sets : String → List (ℕ × String)

abbrev pub empty_store : ℕ → MemoryStore
empty_store t = record {
  clock = t;
  expiretimes = λ k. none;
  texts = λ k. none;
  counters = λ k. 0;
  lists = λ k. [];
  sets = λ k. [];
}

abbrev update : {A : Type 0} → (String → A) → String → A → String → A
update f k v j = if k == j then v else f j

abbrev gone : MemoryStore → ℕ → String → Bool
gone s d k = is_past (s.expiretimes k) (s.clock + d)

abbrev popped : String → ℕ → MemoryStore → Option (List String × MemoryStore)
popped k n s = elim (s.lists k) [
  | [] ↦ none
  | _ ↦ some (take n (s.lists k), record s { lists = update s.lists k (drop n (s.lists k)) })
]

instance abbrev pub memory_redis : Redis
memory_redis = record {
  Store = MemoryStore;
  clock = λ s. s.clock;
  wait = λ d s. record s {
    clock = s.clock + d;
    expiretimes = λ k. if gone s d k then none else s.expiretimes k;
    texts = λ k. if gone s d k then none else s.texts k;
    counters = λ k. if gone s d k then 0 else s.counters k;
    lists = λ k. if gone s d k then [] else s.lists k;
    sets = λ k. if gone s d k then [] else s.sets k;
  };
  expiretime = λ k s. s.expiretimes k;
  get = λ k s. s.texts k;
  setex = λ k ttl v s. record s {
    texts = update s.texts k (some v);
    expiretimes = update s.expiretimes k (some (s.clock + ttl * second));
  };
  delete = λ ks s. record s {
    texts = λ j. if contains ks j then none else s.texts j;
    counters = λ j. if contains ks j then 0 else s.counters j;
    expiretimes = λ j. if contains ks j then none else s.expiretimes j;
  };
  incr = λ k s. (s.counters k + 1, record s { counters = update s.counters k (s.counters k + 1) });
  expire =
      λ k ttl s. record s { expiretimes = update s.expiretimes k (some (s.clock + ttl * second)) };
  lrange = λ k s. s.lists k;
  rpush = λ k v s. some (record s { lists = update s.lists k (s.lists k ++ v ∷ []) });
  lmpop_left = λ k n s. popped k n s;
  llen = λ k s. length (s.lists k);
  zrange = λ k s. s.sets k;
  zremrangebyscore =
      λ k max s. record s { sets = update s.sets k (select (λ e. ltb max e.0) (s.sets k)) };
  zcard = λ k s. length (s.sets k);
  zadd = λ k score m s. record s {
    sets = update s.sets k ((score, m) ∷ select (λ e. not (e.1 == m)) (s.sets k));
  };
}

pub memory-IsTextStore : IsTextStore memory_redis
memory-IsTextStore = record {
  get-setex = λ j k v ttl s h. refl;
  get-delete = λ j ks s. refl;
  get-incr = λ j k s h. refl;
  get-expire = λ j k ttl s h. refl;
  get-wait = λ j d s. refl;
  expiretime-setex = λ k v ttl s h. rw (==_refl k);
  clock-setex = λ k v ttl s. refl;
}

popped-none : (k : String) (n : ℕ) (s : MemoryStore) → popped k n s ≡ none → s.lists k ≡ []
popped-none k n s h = ground arith

popped-some :
    (k : String) (n : ℕ) (s s' : MemoryStore) (es : List String)
    → popped k n s ≡ some (es, s')
    → (es ≡ take n (s.lists k)) × (s'.lists k ≡ drop n (s.lists k))
popped-some k n s s' es h = ground (arith, eq_iff k k)

pub memory-IsListStore : IsListStore memory_redis
memory-IsListStore = record {
  lrange-rpush = λ k v s s' h. ground (arith, eq_iff k k);
  lmpop_left-none = popped-none;
  lmpop_left-some = popped-some;
  llen-lrange = λ k s. refl;
}

count-select :
    (p q : ℕ × String → Bool) (l : List (ℕ × String))
    → count_where p (select q l) ≡ count_where (λ e. q e && p e) l
count-select p q [] = refl
count-select p q (x ∷ l) = ground (arith, count-select p q l)

-- Nothing is left out where no entry has the member.
select_all :
    (m : String) (l : List (ℕ × String))
    → count_where (λ e. e.1 == m) l ≡ 0
    → select (λ e. not (e.1 == m)) l ≡ l
select_all m [] h = refl
select_all m (x ∷ l) h = ground (arith, select_all m l)

pub memory-IsSortedSetStore : IsSortedSetStore memory_redis
memory-IsSortedSetStore = record {
  zcard-zrange = λ k s. refl;
  count-zremrangebyscore =
      λ k p max s. rw (==_refl k) (count-select p (λ e. ltb max e.0) (s.sets k));
  count-zadd = λ k m p score s h. rw (==_refl k, select_all m (s.sets k) h);
  count-expire = λ k p ttl s h. refl;
  count-wait = λ k p d s. ground arith;
  expiretime-wait = λ k d s h. ground arith;
  expiretime-zremrangebyscore = λ k max s h. h;
  expiretime-expire = λ k ttl s h. ground (arith, eq_iff k k);
  clock-wait = λ d s. refl;
  clock-zremrangebyscore = λ k max s. refl;
  clock-zadd = λ k m score s. refl;
  clock-expire = λ k ttl s. refl;
}

popped-texts :
    (j k : String) (n : ℕ) (s s' : MemoryStore) (es : List String)
    → popped k n s ≡ some (es, s')
    → s'.texts j ≡ s.texts j
popped-texts j k n s s' es h = ground arith

pub memory-IsTypedStore : IsTypedStore memory_redis
memory-IsTypedStore = record {
  get-rpush = λ j k v s s' other h. ground arith;
  get-lmpop_left = λ j k n s s' es other h. popped-texts j k n s s' es h;
  get-zremrangebyscore = λ j k max s other. refl;
  get-zadd = λ j k m score s other. refl;
}
