-- ===== src/Utils/UserAgent.antt =====
-- app/utils/user_agent_parser.py. What the library `user_agents` reads from a text is a parameter.
use fastapi_url_shortener.Base.{String, Bool, Option, none, some, ◌==◌, string_eq, if◌then◌else◌}

pub record UserAgentInfo : Type 0 where
  pub browser_family : String
  pub os_family : String
  pub is_mobile : Bool
  pub is_tablet : Bool
  pub is_bot : Bool

pub record UserAgents : Type 0 where
  pub parse : String → UserAgentInfo

pub record ParsedUa : Type 0 where
  pub browser : String
  pub os : String
  pub device : String

-- `s or default`
abbrev pub text_or : String → String → String
text_or s default = if s == "" then default else s

unfoldable pub device_of : UserAgentInfo → String
device_of ua =
    if ua.is_mobile
    then "Mobile"
    else if ua.is_tablet
    then "Tablet"
    else if ua.is_bot
    then "Bot"
    else "Desktop"

abbrev pub unknown_ua : ParsedUa
unknown_ua = record { browser = "Unknown"; os = "Unknown"; device = "Other" }

module _ ⦃u : UserAgents⦄ where
  unfoldable pub parsed : UserAgentInfo → ParsedUa
  unfolding device_of
  parsed ua = record {
    browser = text_or ua.browser_family "Unknown";
    os = text_or ua.os_family "Unknown";
    device = device_of ua;
  }

  unfoldable pub parse_user_agent : Option String → ParsedUa
  unfolding parsed
  parse_user_agent none = unknown_ua
  parse_user_agent (some s) = if s == "" then unknown_ua else parsed (u.parse s)
