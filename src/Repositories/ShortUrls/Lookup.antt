-- ===== src/Repositories/ShortUrls/Lookup.antt =====
-- The queries by code and id of app/repositories/url.py, on well-formed links.
use fastapi_url_shortener.Base.{
  ◌≤◌, String, ◌≡◌, refl, Bool, true, ◌&&◌, Option, none, some, List, [], ◌∷◌, arith, if◌then◌else◌,
  ◌==◌, nat_eq, string_eq, option_eq, count_where, count_where_mono,
}
use fastapi_url_shortener.Core.Action.{ok}
use fastapi_url_shortener.Models.{Uuid, DateTime, ShortUrl}
use fastapi_url_shortener.Postgres.{Postgres}
use fastapi_url_shortener.Repositories.BaseRepository as Base
use fastapi_url_shortener.Repositories.Query.{
  first_where, scalar_one_or_none-select, first_where_of_none,
}
use fastapi_url_shortener.Repositories.ShortUrls.{
  has_code, is_live, is_some, find_one, short_code_exists, get_active_by_code, get_by_id,
  get_by_short_code,
}
use fastapi_url_shortener.Repositories.ShortUrls.WellFormed.{IsWellFormed}

-- A further condition is a test of the one row.
pub first_where-and :
    {A : Type 0} (p q : A → Bool) (xs : List A)
    → count_where p xs ≤ 1
    → first_where (λ x. p x && q x) xs
      ≡ (elim (first_where p xs) [ none ↦ none | some x ↦ if q x then some x else none ])
first_where-and p q [] h = refl
first_where-and p q (x ∷ xs) h = ground (
  arith,
  first_where-and p q xs,
  first_where_of_none (λ y. p y && q y) xs,
  count_where_mono (λ y. p y && q y) p (λ y t. ground arith) xs,
)

left : (a b : Bool) → (a && b) ≡ true → a ≡ true
left a b h = ground arith

-- The link that a code leads to.
abbrev pub link_of : String → List ShortUrl → Option ShortUrl
link_of code urls = first_where (has_code code) urls

-- The link that a code leads to, if it is active and not expired.
abbrev pub live_link_of : DateTime → String → List ShortUrl → Option ShortUrl
live_link_of now code urls = first_where (λ u. has_code code u && is_live now u) urls

module _ ⦃pg : Postgres⦄ (db : pg.Db) where
  find_one_lem :
      (p : ShortUrl → Bool)
      → count_where p (pg.short_urls.rows db) ≤ 1
      → find_one p db ≡ (ok (first_where p (pg.short_urls.rows db)), db)
  unfolding find_one Base.find_one
  find_one_lem p h = rw (scalar_one_or_none-select p (pg.short_urls.rows db) h)

  module _ (wf : IsWellFormed (pg.short_urls.rows db)) where
    pub get_by_id_lem :
        (id : Uuid)
        → get_by_id id db ≡ (ok (first_where (λ u. u.id == id) (pg.short_urls.rows db)), db)
    unfolding get_by_id
    get_by_id_lem id = find_one_lem (λ u. u.id == id) (wf.unique_ids id)

    pub get_active_by_code_lem :
        (now : DateTime) (code : String)
        → get_active_by_code now code db ≡ (ok (live_link_of now code (pg.short_urls.rows db)), db)
    unfolding get_active_by_code
    get_active_by_code_lem now code =
        find_one_lem (λ u. has_code code u && is_live now u)
          (omega (
            arith,
            wf.unique_codes code,
            count_where_mono (λ u. has_code code u && is_live now u) (has_code code)
                (λ u h. left (has_code code u) (is_live now u) h) (pg.short_urls.rows db),
          ))

    pub short_code_exists_lem :
        (code : String)
        → short_code_exists code db ≡ (ok (is_some (link_of code (pg.short_urls.rows db))), db)
    unfolding short_code_exists
    short_code_exists_lem code = rw (find_one_lem (has_code code) (wf.unique_codes code))

    pub get_by_short_code_lem :
        (code : String)
        → get_by_short_code code db
          ≡ (ok (first_where (λ u. u.short_code == code) (pg.short_urls.rows db)), db)
    unfolding get_by_short_code has_code
    get_by_short_code_lem code =
        find_one_lem (λ u. u.short_code == code)
          (omega (
            arith,
            wf.unique_codes code,
            count_where_mono (λ u. u.short_code == code) (has_code code) (λ u h. ground arith)
                (pg.short_urls.rows db),
          ))
