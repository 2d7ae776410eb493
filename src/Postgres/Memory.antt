-- ===== src/Postgres/Memory.antt =====
-- Tables as lists: an instance of the interface, for tests.
use fastapi_url_shortener.Base.{
  refl, not, ◌&&◌, any, ◌==◌, nat_eq, none, some, List, [], ◌∷◌, ◌++◌, arith, if◌then◌else◌, select,
  update_where,
}
use fastapi_url_shortener.Models.{
  User, ShortUrl, RefreshToken, ClickEvent, admits_user, admits_short_url, admits_refresh_token,
  admits_click_event,
}
use fastapi_url_shortener.Postgres.{Table, Postgres}
use fastapi_url_shortener.Postgres.Laws.{all_admitted, IsTable, IsPostgres}

pub record MemoryDb : Type 0 where
  pub users : List User
  pub short_urls : List ShortUrl
  pub refresh_tokens : List RefreshToken
  pub click_events : List ClickEvent

abbrev pub empty_db : MemoryDb
empty_db = record { users = []; short_urls = []; refresh_tokens = []; click_events = [] }

abbrev memory_users : Table MemoryDb User
memory_users = record {
  rows = λ d. d.users;
  add =
      λ r d. if admits_user d.users r then some (record d { users = d.users ++ r ∷ [] }) else none;
  update = λ p f d. record d { users = update_where p f d.users };
  delete = λ p d. record d { users = select (λ r. not (p r)) d.users };
}

abbrev memory_short_urls : Table MemoryDb ShortUrl
memory_short_urls = record {
  rows = λ d. d.short_urls;
  add = λ r d.
      if admits_short_url d.users d.short_urls r
      then some (record d { short_urls = d.short_urls ++ r ∷ [] })
      else none;
  update = λ p f d. record d { short_urls = update_where p f d.short_urls };
  delete = λ p d. record d {
    short_urls = select (λ r. not (p r)) d.short_urls;
    click_events =
        select (λ e. not (any (λ u. p u && (u.id == e.short_url_id)) d.short_urls)) d.click_events;
  };
}

abbrev memory_refresh_tokens : Table MemoryDb RefreshToken
memory_refresh_tokens = record {
  rows = λ d. d.refresh_tokens;
  add = λ r d.
      if admits_refresh_token d.users d.refresh_tokens r
      then some (record d { refresh_tokens = d.refresh_tokens ++ r ∷ [] })
      else none;
  update = λ p f d. record d { refresh_tokens = update_where p f d.refresh_tokens };
  delete = λ p d. record d { refresh_tokens = select (λ r. not (p r)) d.refresh_tokens };
}

abbrev memory_click_events : Table MemoryDb ClickEvent
memory_click_events = record {
  rows = λ d. d.click_events;
  add = λ r d.
      if admits_click_event d.short_urls r
      then some (record d { click_events = d.click_events ++ r ∷ [] })
      else none;
  update = λ p f d. record d { click_events = update_where p f d.click_events };
  delete = λ p d. record d { click_events = select (λ r. not (p r)) d.click_events };
}

instance abbrev pub memory : Postgres
memory = record {
  Db = MemoryDb;
  users = memory_users;
  short_urls = memory_short_urls;
  refresh_tokens = memory_refresh_tokens;
  click_events = memory_click_events;
  add_all_click_events = λ es d.
      if all_admitted (admits_click_event d.short_urls) es
      then some (record d { click_events = d.click_events ++ es })
      else none;
}

users-IsTable : IsTable memory_users (λ d. admits_user d.users)
users-IsTable = record {
  rows-add = λ r d. ground arith;
  rows-update = λ p f d. refl;
  rows-delete = λ p d. refl;
}

short_urls-IsTable : IsTable memory_short_urls (λ d. admits_short_url d.users d.short_urls)
short_urls-IsTable = record {
  rows-add = λ r d. ground arith;
  rows-update = λ p f d. refl;
  rows-delete = λ p d. refl;
}

refresh_tokens-IsTable :
    IsTable memory_refresh_tokens (λ d. admits_refresh_token d.users d.refresh_tokens)
refresh_tokens-IsTable = record {
  rows-add = λ r d. ground arith;
  rows-update = λ p f d. refl;
  rows-delete = λ p d. refl;
}

click_events-IsTable : IsTable memory_click_events (λ d. admits_click_event d.short_urls)
click_events-IsTable = record {
  rows-add = λ r d. ground arith;
  rows-update = λ p f d. refl;
  rows-delete = λ p d. refl;
}

pub memory-IsPostgres : IsPostgres memory
memory-IsPostgres = record {
  users = users-IsTable;
  short_urls = short_urls-IsTable;
  refresh_tokens = refresh_tokens-IsTable;
  click_events = click_events-IsTable;
  rows-add_all_click_events = λ es d. ground arith;
  short_urls-add_all_click_events = λ es d d' h. ground arith;
  short_urls_apart = record { rows-add = λ r d d' h. ground arith; rows-update = λ p f d. refl };
  refresh_tokens_apart = record {
    rows-add = λ r d d' h. ground arith;
    rows-update = λ p f d. refl;
  };
  refresh_tokens_apart_links = record {
    rows-add = λ r d d' h. ground arith;
    rows-update = λ p f d. refl;
  };
  users_apart_clicks = record { rows-add = λ r d d' h. ground arith; rows-update = λ p f d. refl };
  refresh_tokens_apart_clicks = record {
    rows-add = λ r d d' h. ground arith;
    rows-update = λ p f d. refl;
  };
  click_events-delete_short_urls = λ p d. refl;
  users_apart_links = record { rows-add = λ r d d' h. ground arith; rows-update = λ p f d. refl };
}
