-- ===== src/Core/Settings.antt =====
-- app/core/config.py: the settings that the modelled code reads, with their defaults.
use fastapi_url_shortener.Base.{ℕ, String, ◌&&◌, ◌==◌, if◌then◌else◌, string_eq}
use fastapi_url_shortener.Core.Errors.{value_error}
use fastapi_url_shortener.Core.Action.{Result, ok, err}

pub record Settings : Type 0 where
  pub environment : String
  pub secret_key : String
  pub access_token_expire_minutes : ℕ
  pub refresh_token_expire_days : ℕ
  pub base_url : String
  pub short_code_length : ℕ
  pub max_collision_retries : ℕ
  pub rate_limit_requests : ℕ
  pub rate_limit_window : ℕ
  pub anonymous_rate_limit : ℕ
  pub anonymous_rate_limit_window : ℕ
  pub url_cache_ttl : ℕ
  pub qr_cache_ttl : ℕ
  pub analytics_cache_ttl : ℕ
  pub hot_url_click_threshold : ℕ
  pub analytics_batch_size : ℕ

abbrev pub default_settings : Settings
default_settings = record {
  environment = "production";
  secret_key = "change-this-secret-key";
  access_token_expire_minutes = 30;
  refresh_token_expire_days = 30;
  base_url = "http://localhost:8000";
  short_code_length = 7;
  max_collision_retries = 5;
  rate_limit_requests = 100;
  rate_limit_window = 60;
  anonymous_rate_limit = 20;
  anonymous_rate_limit_window = 60;
  url_cache_ttl = 3600;
  qr_cache_ttl = 86400;
  analytics_cache_ttl = 300;
  hot_url_click_threshold = 100;
  analytics_batch_size = 100;
}

-- `Settings.check_production_secrets`
unfoldable pub check_production_secrets : Settings → Result Settings
check_production_secrets s =
    if s.environment == "production" && s.secret_key == "change-this-secret-key"
    then err value_error
    else ok s
