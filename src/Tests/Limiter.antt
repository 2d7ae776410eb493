-- ===== src/Tests/Limiter.antt =====
-- The limiter at concrete requests.
use Prim.Native.Char.{code}
use fastapi_url_shortener.Base.{
  Bool, not, ◌&&◌, ◌==◌, nat_eq, ap, String, ℕ, ◌*◌, ◌≤◌, ◌≡◌, refl, arith, List, [], count_where,
  ◌+◌, ◌<◌, ◌↔◌, true, false,
}
use fastapi_url_shortener.Models.{second}
use fastapi_url_shortener.Redis.Memory.{
  MemoryStore, memory_redis, empty_store, memory-IsSortedSetStore,
}
use fastapi_url_shortener.RateLimiter.{is_allowed, rate_limit_key}
use fastapi_url_shortener.RateLimiter.Window.{
  Reach, start, request, serve, in_window, allowed_in_window,
}
use fastapi_url_shortener.RateLimiter.Replies.{held_after, is_allowed_iff, refused_reset_after}
use fastapi_url_shortener.RateLimiter.Keys.{NoColon, rate_limit_key-injective}

-- Two requests within a second, one allowed in each second.
abbrev one_request : List ℕ × MemoryStore
one_request = serve memory-IsSortedSetStore "ip" "create_url" 1 1 5 "a" ([], empty_store 5000000)

abbrev two_requests : List ℕ × MemoryStore
two_requests = serve memory-IsSortedSetStore "ip" "create_url" 1 1 7 "b" one_request

two_requests-Reach : Reach memory-IsSortedSetStore "ip" "create_url" 1 1 two_requests
unfolding serve is_allowed rate_limit_key
two_requests-Reach =
    request 7 "b" (request 5 "a" (start (empty_store 5000000) (ground arith) refl) refl) refl

allowed_in_window_example : count_where (in_window (1 * second) 5000012) two_requests.0 ≤ 1
allowed_in_window_example =
    allowed_in_window memory-IsSortedSetStore "ip" "create_url" 1 1 (omega arith) two_requests-Reach
      5000012

-- The set of a key after one allowed request, and the answer to the next.
abbrev busy : MemoryStore
busy = (is_allowed "ip" 1 1 "create_url" 5000005 "a" (empty_store 5000005)).1

is_allowed_iff_example :
    (((is_allowed "ip" 1 1 "create_url" 5000012 "b" busy).0.allowed ≡ true)
      ↔ (held_after (rate_limit_key "ip" "create_url") 4000012 busy < 1))
    × (held_after (rate_limit_key "ip" "create_url") 4000012 busy < 1
        → ((is_allowed "ip" 1 1 "create_url" 5000012 "b" busy).0.remaining
              + held_after (rate_limit_key "ip" "create_url") 4000012 busy
              + 1
            ≡ 1)
          × ((is_allowed "ip" 1 1 "create_url" 5000012 "b" busy).0.reset_after ≡ 1))
    × (1 ≤ held_after (rate_limit_key "ip" "create_url") 4000012 busy
        → (is_allowed "ip" 1 1 "create_url" 5000012 "b" busy).0.remaining ≡ 0)
is_allowed_iff_example =
    is_allowed_iff memory-IsSortedSetStore "ip" "create_url" "b" 1 1 5000012 busy

-- A window of one hour that was filled 7 microseconds ago.
abbrev full : MemoryStore
full = (is_allowed "ip" 1 3600 "create_url" 5000000000 "a" (empty_store 5000000000)).1

full-refused : (is_allowed "ip" 1 3600 "create_url" 5000000007 "b" full).0.allowed ≡ false
unfolding is_allowed rate_limit_key
full-refused = refl

refused_reset_after_example :
    (is_allowed "ip" 1 3600 "create_url" 5000000007 "b" full).0.reset_after ≡ 1
refused_reset_after_example =
    refused_reset_after memory-IsSortedSetStore "ip" "create_url" "b" 1 3600 5000000007 full
      (omega arith) full-refused

abbrev no_colon : String → Bool
no_colon String.[] = true
no_colon (String.◌∷◌ c s) = not (code c == b':') && no_colon s

no_colon-NoColon : (s : String) → no_colon s ≡ true → NoColon s
no_colon-NoColon String.[] h = tt
no_colon-NoColon (String.◌∷◌ c s) h =
    (λ e. ground (arith, ap code e), no_colon-NoColon s (ground arith))

abbrev client : String
client = "1.2.3.4:5"

abbrev create_url : String
create_url = "create_url"

rate_limit_key-injective_example : (client ≡ client) × (create_url ≡ create_url)
rate_limit_key-injective_example =
    rate_limit_key-injective client client create_url create_url (no_colon-NoColon create_url refl)
      (no_colon-NoColon create_url refl) refl
