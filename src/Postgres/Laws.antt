-- ===== src/Postgres/Laws.antt =====
-- What the program relies on of PostgreSQL: statements change the rows as their SQL says, a row
-- goes in exactly when the constraints that the models declare admit it, and a statement on one
-- table leaves the others alone.
use fastapi_url_shortener.Base.{
  ◌≡◌, Bool, not, ◌&&◌, any, ◌==◌, nat_eq, Option, none, some, List, [], ◌∷◌, ◌++◌, if◌then◌else◌,
  select, update_where,
}
use fastapi_url_shortener.Models.{
  ShortUrl, ClickEvent, admits_user, admits_short_url, admits_refresh_token, admits_click_event,
}
use fastapi_url_shortener.Postgres.{Table, Postgres}

-- Every row of an INSERT is admitted.
abbrev pub all_admitted : {A : Type 0} → (A → Bool) → List A → Bool
all_admitted p [] = Bool.true
all_admitted p (x ∷ xs) = let rest = all_admitted p xs in if p x then rest else Bool.false

abbrev pub rows_after : {Db Row : Type 0} → (Db → List Row) → Option Db → Option (List Row)
rows_after f none = none
rows_after f (some db) = some (f db)

pub record IsTable {Db Row : Type 0} (t : Table Db Row) (admits : Db → Row → Bool) : Type 0 where
  pub rows-add :
      (r : Row) (db : Db)
      → rows_after t.rows (t.add r db) ≡ (if admits db r then some (t.rows db ++ r ∷ []) else none)
  pub rows-update :
      (p : Row → Bool) (f : Row → Row) (db : Db)
      → t.rows (t.update p f db) ≡ update_where p f (t.rows db)
  pub rows-delete :
      (p : Row → Bool) (db : Db) → t.rows (t.delete p db) ≡ select (λ r. not (p r)) (t.rows db)

-- Writes to one table show in no row of another. (A DELETE may cascade.)
pub record IsApart {Db R Q : Type 0} (t : Table Db R) (other : Table Db Q) : Type 0 where
  pub rows-add : (r : R) (db db' : Db) → t.add r db ≡ some db' → other.rows db' ≡ other.rows db
  pub rows-update :
      (p : R → Bool) (f : R → R) (db : Db) → other.rows (t.update p f db) ≡ other.rows db

pub record IsPostgres (pg : Postgres) : Type 0 where
  pub users : IsTable pg.users (λ db. admits_user (pg.users.rows db))
  pub short_urls :
      IsTable pg.short_urls (λ db. admits_short_url (pg.users.rows db) (pg.short_urls.rows db))
  pub refresh_tokens :
      IsTable pg.refresh_tokens
        (λ db. admits_refresh_token (pg.users.rows db) (pg.refresh_tokens.rows db))
  pub click_events : IsTable pg.click_events (λ db. admits_click_event (pg.short_urls.rows db))
  pub rows-add_all_click_events :
      (es : List ClickEvent) (db : pg.Db)
      → rows_after pg.click_events.rows (pg.add_all_click_events es db) ≡ (
          if all_admitted (admits_click_event (pg.short_urls.rows db)) es
          then some (pg.click_events.rows db ++ es)
          else none)
  pub short_urls-add_all_click_events :
      (es : List ClickEvent) (db db' : pg.Db)
      → pg.add_all_click_events es db ≡ some db'
      → pg.short_urls.rows db' ≡ pg.short_urls.rows db
  pub short_urls_apart : IsApart pg.short_urls pg.click_events
  pub refresh_tokens_apart : IsApart pg.refresh_tokens pg.users
  pub users_apart_links : IsApart pg.users pg.short_urls
  pub refresh_tokens_apart_links : IsApart pg.refresh_tokens pg.short_urls
  pub users_apart_clicks : IsApart pg.users pg.click_events
  pub refresh_tokens_apart_clicks : IsApart pg.refresh_tokens pg.click_events
  -- `ondelete="CASCADE"` of `click_events.short_url_id`
  pub click_events-delete_short_urls :
      (p : ShortUrl → Bool) (db : pg.Db)
      → pg.click_events.rows (pg.short_urls.delete p db)
        ≡ select
            (λ e. not (any (λ u. p u && (u.id == e.short_url_id)) (pg.short_urls.rows db)))
            (pg.click_events.rows db)
