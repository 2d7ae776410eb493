-- ===== src/Analytics/Events.antt =====
-- app/analytics/events.py
use Prim.Native.String.{◌++◌}
use fastapi_url_shortener.Base.{
  String, not, ◌&&◌, Option, none, some, [], ◌∷◌, ◌==◌, string_eq, if◌then◌else◌,
}
use fastapi_url_shortener.Models.{Uuid, DateTime}
use fastapi_url_shortener.Formats.{Formats, JsonObject, text, optional_text}

-- The dataclass `ClickEvent`.
pub record Click : Type 0 where
  pub short_url_id : Uuid
  pub timestamp : DateTime
  pub ip_address : Option String
  pub user_agent : Option String
  pub referrer : Option String
  pub country : Option String
  pub city : Option String
  pub browser : Option String
  pub os : Option String
  pub device : Option String

-- `visitor_hash`, of the address and the user agent where both are there and not empty
unfoldable pub hash_visitor : Formats → Option String → Option String → Option String
hash_visitor f (some ip) (some ua) =
    if not (ip == "") && not (ua == "") then some (f.sha256 (ip ++ ":" ++ ua)) else none
hash_visitor f _ _ = none

-- `to_dict`
unfoldable pub to_dict : Formats → Click → JsonObject
to_dict f c =
    ("short_url_id", text (f.uuid_str c.short_url_id))
    ∷ ("timestamp", text (f.isoformat c.timestamp))
    ∷ ("visitor_hash", optional_text (hash_visitor f c.ip_address c.user_agent))
    ∷ ("user_agent", optional_text c.user_agent)
    ∷ ("referrer", optional_text c.referrer)
    ∷ ("country", optional_text c.country)
    ∷ ("city", optional_text c.city)
    ∷ ("browser", optional_text c.browser)
    ∷ ("os", optional_text c.os)
    ∷ ("device", optional_text c.device)
    ∷ []
