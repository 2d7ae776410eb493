-- ===== src/Migrations/Initial.antt =====
-- alembic/versions/0001_initial_schema.py
use fastapi_url_shortener.Base.{true, false, none, some, List, [], ◌∷◌}
use fastapi_url_shortener.Migrations.{
  uuid, string, unbounded, boolean, timestamptz, big_integer, date, json, column, TableDef,
  Statement, create_table, create_index, drop_table,
}

abbrev pub users_table : TableDef
users_table = record {
  name = "users";
  columns =
      column "id" uuid false none
      ∷ column "email" (string 255) false none
      ∷ column "hashed_password" (string 255) false none
      ∷ column "full_name" (string 255) true none
      ∷ column "role" (string 20) false (some "user")
      ∷ column "is_active" boolean false (some "true")
      ∷ column "is_verified" boolean false (some "false")
      ∷ column "created_at" timestamptz false (some "now()")
      ∷ column "updated_at" timestamptz false (some "now()")
      ∷ [];
  foreign_keys = [];
  primary_key = "id" ∷ [];
  uniques = [];
}

abbrev pub short_urls_table : TableDef
short_urls_table = record {
  name = "short_urls";
  columns =
      column "id" uuid false none
      ∷ column "original_url" unbounded false none
      ∷ column "short_code" (string 50) false none
      ∷ column "custom_alias" (string 50) true none
      ∷ column "title" (string 255) true none
      ∷ column "owner_id" uuid true none
      ∷ column "is_active" boolean false (some "true")
      ∷ column "is_public" boolean false (some "true")
      ∷ column "expires_at" timestamptz true none
      ∷ column "click_count" big_integer false (some "0")
      ∷ column "created_at" timestamptz false (some "now()")
      ∷ column "updated_at" timestamptz false (some "now()")
      ∷ [];
  foreign_keys =
      record { column = "owner_id"; table = "users"; target = "id"; ondelete = "SET NULL" } ∷ [];
  primary_key = "id" ∷ [];
  uniques = ("short_code" ∷ []) ∷ ("custom_alias" ∷ []) ∷ [];
}

abbrev pub click_events_table : TableDef
click_events_table = record {
  name = "click_events";
  columns =
      column "id" uuid false none
      ∷ column "short_url_id" uuid false none
      ∷ column "visitor_hash" (string 64) true none
      ∷ column "country" (string 2) true none
      ∷ column "city" (string 100) true none
      ∷ column "referrer" (string 2048) true none
      ∷ column "user_agent" (string 512) true none
      ∷ column "browser" (string 50) true none
      ∷ column "os" (string 50) true none
      ∷ column "device" (string 20) true none
      ∷ column "created_at" timestamptz false (some "now()")
      ∷ column "updated_at" timestamptz false (some "now()")
      ∷ [];
  foreign_keys =
      record { column = "short_url_id"; table = "short_urls"; target = "id"; ondelete = "CASCADE" }
      ∷ [];
  primary_key = "id" ∷ [];
  uniques = [];
}

abbrev pub analytics_snapshots_table : TableDef
analytics_snapshots_table = record {
  name = "analytics_snapshots";
  columns =
      column "id" uuid false none
      ∷ column "short_url_id" uuid false none
      ∷ column "snapshot_date" date false none
      ∷ column "total_clicks" big_integer false (some "0")
      ∷ column "unique_visitors" big_integer false (some "0")
      ∷ column "country_data" json false (some "{}")
      ∷ column "browser_data" json false (some "{}")
      ∷ column "os_data" json false (some "{}")
      ∷ column "device_data" json false (some "{}")
      ∷ column "referrer_data" json false (some "{}")
      ∷ column "created_at" timestamptz false (some "now()")
      ∷ column "updated_at" timestamptz false (some "now()")
      ∷ [];
  foreign_keys =
      record { column = "short_url_id"; table = "short_urls"; target = "id"; ondelete = "CASCADE" }
      ∷ [];
  primary_key = "id" ∷ [];
  uniques = ("short_url_id" ∷ "snapshot_date" ∷ []) ∷ [];
}

abbrev pub refresh_tokens_table : TableDef
refresh_tokens_table = record {
  name = "refresh_tokens";
  columns =
      column "id" uuid false none
      ∷ column "user_id" uuid false none
      ∷ column "token_hash" (string 64) false none
      ∷ column "expires_at" timestamptz false none
      ∷ column "is_revoked" boolean false (some "false")
      ∷ column "user_agent" (string 512) true none
      ∷ column "ip_address" (string 45) true none
      ∷ column "created_at" timestamptz false (some "now()")
      ∷ column "updated_at" timestamptz false (some "now()")
      ∷ [];
  foreign_keys =
      record { column = "user_id"; table = "users"; target = "id"; ondelete = "CASCADE" } ∷ [];
  primary_key = "id" ∷ [];
  uniques = ("token_hash" ∷ []) ∷ [];
}

-- `upgrade`, its statements in order
abbrev pub upgrade : List Statement
upgrade =
    create_table users_table
    ∷ create_index
        (record { name = "ix_users_email"; table = "users"; columns = "email" ∷ []; unique = true })
    ∷ create_index (record {
      name = "ix_users_email_active";
      table = "users";
      columns = "email" ∷ "is_active" ∷ [];
      unique = false;
    })
    ∷ create_table short_urls_table
    ∷ create_index (record {
      name = "ix_short_urls_short_code";
      table = "short_urls";
      columns = "short_code" ∷ [];
      unique = false;
    })
    ∷ create_index (record {
      name = "ix_short_urls_owner_active";
      table = "short_urls";
      columns = "owner_id" ∷ "is_active" ∷ [];
      unique = false;
    })
    ∷ create_index (record {
      name = "ix_short_urls_expires_at";
      table = "short_urls";
      columns = "expires_at" ∷ [];
      unique = false;
    })
    ∷ create_table click_events_table
    ∷ create_index (record {
      name = "ix_click_events_url_created";
      table = "click_events";
      columns = "short_url_id" ∷ "created_at" ∷ [];
      unique = false;
    })
    ∷ create_index (record {
      name = "ix_click_events_created_at";
      table = "click_events";
      columns = "created_at" ∷ [];
      unique = false;
    })
    ∷ create_index (record {
      name = "ix_click_events_country";
      table = "click_events";
      columns = "country" ∷ [];
      unique = false;
    })
    ∷ create_table analytics_snapshots_table
    ∷ create_index (record {
      name = "ix_snapshots_url_date";
      table = "analytics_snapshots";
      columns = "short_url_id" ∷ "snapshot_date" ∷ [];
      unique = false;
    })
    ∷ create_table refresh_tokens_table
    ∷ create_index (record {
      name = "ix_refresh_tokens_hash";
      table = "refresh_tokens";
      columns = "token_hash" ∷ [];
      unique = false;
    })
    ∷ create_index (record {
      name = "ix_refresh_tokens_user_active";
      table = "refresh_tokens";
      columns = "user_id" ∷ "is_revoked" ∷ [];
      unique = false;
    })
    ∷ []

-- `downgrade`
abbrev pub downgrade : List Statement
downgrade =
    drop_table "refresh_tokens"
    ∷ drop_table "analytics_snapshots"
    ∷ drop_table "click_events"
    ∷ drop_table "short_urls"
    ∷ drop_table "users"
    ∷ []
