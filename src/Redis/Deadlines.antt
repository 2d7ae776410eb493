-- ===== src/Redis/Deadlines.antt =====
-- What a key holds while time passes.
use fastapi_url_shortener.Base.{
  ℕ, ◌+◌, ◌*◌, ◌<◌, String, ◌≡◌, ◌∙◌, false, some, arith, ==_refl, string_eq,
}
use fastapi_url_shortener.Models.{second}
use fastapi_url_shortener.Redis.{Redis}
use fastapi_url_shortener.Redis.Laws.{IsTextStore, is_past}

module _ ⦃r : Redis⦄ (texts : IsTextStore r) (k v : String) (ttl d : ℕ) (s : r.Store)
    (lives : 0 < ttl) (within : d < ttl * second) where
  -- An entry has not reached its deadline before its time to live is over.
  pub setex-alive :
      is_past (r.expiretime k (r.setex k ttl v s)) (r.clock (r.setex k ttl v s) + d) ≡ false
  setex-alive =
      rw (texts.expiretime-setex k v ttl s lives, texts.clock-setex k v ttl s) (ground arith)

  -- Until then it is read as it was written.
  pub setex-wait : r.get k (r.wait d (r.setex k ttl v s)) ≡ some v
  setex-wait =
      texts.get-wait k d (r.setex k ttl v s)
      ∙ rw (setex-alive, texts.get-setex k k v ttl s lives, ==_refl k)
