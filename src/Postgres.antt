-- ===== src/Postgres.antt =====
-- PostgreSQL behind SQLAlchemy's `AsyncSession`, as a parameter: the statements that the program
-- executes, and what they do to the rows of the tables. `Memory` is an instance.
pub mod Memory
pub mod Laws
use fastapi_url_shortener.Base.{Bool, Option, List}
use fastapi_url_shortener.Models.{User, ShortUrl, RefreshToken, ClickEvent}

pub record Table (Db Row : Type 0) : Type 0 where
  -- SELECT * FROM the table, as the session sees it
  pub rows : Db → List Row
  -- session.add(row); session.flush(): an INSERT, or none where a constraint or the
  -- length of a column refuses it
  pub add : Row → Db → Option Db
  -- UPDATE … SET … WHERE
  pub update : (Row → Bool) → (Row → Row) → Db → Db
  -- DELETE … WHERE
  pub delete : (Row → Bool) → Db → Db

pub record Postgres : Type 1 where
  pub Db : Type 0
  pub users : Table Db User
  pub short_urls : Table Db ShortUrl
  pub refresh_tokens : Table Db RefreshToken
  pub click_events : Table Db ClickEvent
  -- session.add_all(rows); session.flush(): one INSERT of many rows, or none
  pub add_all_click_events : List ClickEvent → Db → Option Db
