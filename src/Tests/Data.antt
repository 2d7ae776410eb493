-- ===== src/Tests/Data.antt =====
-- What the tests share: a user, a link, a database, parsers.
use fastapi_url_shortener.Base.{
  ◌+◌, ◌*◌, ◌^◌, arith, inl, refl, true, false, none, some, [], ◌∷◌, ◌==◌, string_eq, if◌then◌else◌,
}
use fastapi_url_shortener.Core.World.{World}
use fastapi_url_shortener.Models.{User, ShortUrl}
use fastapi_url_shortener.Utils.UserAgent.{UserAgents}
use fastapi_url_shortener.Redirect.{Visitor}
use fastapi_url_shortener.Postgres.Memory.{MemoryDb, memory}
use fastapi_url_shortener.Formats.Memory.{memory_formats}
use fastapi_url_shortener.Repositories.ShortUrls.WellFormed.{IsWellFormed}
use fastapi_url_shortener.Redirect.Resolve.{IsCoherent}
use fastapi_url_shortener.Redis.Memory.{memory_redis, empty_store}
use fastapi_url_shortener.Utils.UrlValidator.{ipv4, ipv6, UrlParsers}

abbrev pub ada : User
ada = record {
  id = 1;
  created_at = 1;
  updated_at = 1;
  email = "ada@example.com";
  hashed_password = "secret";
  full_name = none;
  role = "user";
  is_active = true;
  is_verified = false;
}

abbrev pub link : ShortUrl
link = record {
  id = 2;
  created_at = 1;
  updated_at = 1;
  original_url = "https://example.com/a";
  short_code = "abc1234";
  custom_alias = none;
  title = none;
  owner_id = some 1;
  is_active = true;
  is_public = true;
  expires_at = some 9;
  click_count = 0;
}

abbrev pub one_link : MemoryDb
one_link = record {
  users = ada ∷ [];
  short_urls = link ∷ [];
  refresh_tokens = [];
  click_events = [];
}

abbrev pub no_links : MemoryDb
no_links = record { users = ada ∷ []; short_urls = []; refresh_tokens = []; click_events = [] }

abbrev pub world_of : MemoryDb → World memory memory_redis
world_of db = record { db = db; store = empty_store 3 }

-- Two URLs and two addresses.
instance abbrev pub two_urls : UrlParsers
two_urls = record {
  urlparse = λ url.
      if url == "https://example.com/a"
      then some (record { scheme = "https"; hostname = some "example.com" })
      else if url == "http://[::ffff:10.0.0.1]/"
      then some (record { scheme = "http"; hostname = some "::ffff:10.0.0.1" })
      else none;
  ip_address = λ host.
      if host == "::ffff:10.0.0.1"
      then some (ipv6 (0xffff * 2 ^ 32 + 0x0a000001))
      else if host == "10.0.0.1"
      then some (ipv4 0x0a000001)
      else none;
}

instance abbrev pub no_agents : UserAgents
no_agents = record {
  parse = λ s. record {
    browser_family = "";
    os_family = "";
    is_mobile = false;
    is_tablet = false;
    is_bot = false;
  };
}

abbrev pub visitor : Visitor
visitor = record { ip_address = some "10.0.0.1"; user_agent = none; referrer = none }

pub one_link-IsWellFormed : IsWellFormed one_link.short_urls
one_link-IsWellFormed = record {
  unique_codes = λ c. ground arith;
  unique_ids = λ i. ground arith;
  aliases = (inl refl, tt);
}

-- A store without texts.
pub empty-IsCoherent : (db : MemoryDb) → IsCoherent memory_formats (world_of db)
empty-IsCoherent db = record { at = λ code raw h. cc }
