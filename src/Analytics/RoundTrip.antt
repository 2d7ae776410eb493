-- ===== src/Analytics/RoundTrip.antt =====
-- The events of app/analytics/events.py and the parser of app/analytics/processor.py.
use fastapi_url_shortener.Base.{String, ◌≡◌, refl, Option, none, some}
use fastapi_url_shortener.Models.{ClickEvent}
use fastapi_url_shortener.Formats.{Formats, IsFormats, as_text, optional_text}
use fastapi_url_shortener.Analytics.Events.{Click, hash_visitor, to_dict}
use fastapi_url_shortener.Analytics.Processor.{parse_event, row_of}

as_text-optional_text : (s : Option String) → as_text (optional_text s) ≡ s
as_text-optional_text none = refl
as_text-optional_text (some s) = refl

-- The row that a click stands for: the address of the visitor is kept as a hash only.
abbrev pub stored_click : Formats → Click → ClickEvent
stored_click f c = record {
  short_url_id = c.short_url_id;
  created_at = c.timestamp;
  visitor_hash = hash_visitor f c.ip_address c.user_agent;
  country = c.country;
  city = c.city;
  referrer = c.referrer;
  user_agent = c.user_agent;
  browser = c.browser;
  os = c.os;
  device = c.device;
}

-- The dictionary that `to_dict` makes of a click parses, to the row with the fields of the click
-- and the hash of its visitor.
pub parse_event-to_dict :
    (f : Formats) (c : Click) → IsFormats f → parse_event f (to_dict f c) ≡ some (stored_click f c)
unfolding parse_event to_dict row_of
parse_event-to_dict f c formats = rw (
  formats.uuid_parse-uuid_str c.short_url_id,
  formats.fromisoformat-isoformat c.timestamp,
  as_text-optional_text (hash_visitor f c.ip_address c.user_agent),
  as_text-optional_text c.country,
  as_text-optional_text c.city,
  as_text-optional_text c.referrer,
  as_text-optional_text c.user_agent,
  as_text-optional_text c.browser,
  as_text-optional_text c.os,
  as_text-optional_text c.device,
)
