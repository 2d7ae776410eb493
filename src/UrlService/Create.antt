-- ===== src/UrlService/Create.antt =====
-- `create` of app/services/url.py.
use fastapi_url_shortener.Base.{
  ==_refl, ℕ, ◌<◌, ◌+◌, String, ◌≡◌, refl, ap, ◌∙◌, true, false, ◌⊎◌, Option, none, some, [], ◌∷◌,
  ◌++◌, arith, ◌==◌, nat_eq, string_eq, option_eq, eq_iff, inl, inr, Bool-cases, Option-cases,
}
use fastapi_url_shortener.Core.Errors.{dbapi_error}
use fastapi_url_shortener.Core.Action.{attempt, resume, Result, ok, err}
use fastapi_url_shortener.Core.Settings.{Settings}
use fastapi_url_shortener.Core.World.{World}
use fastapi_url_shortener.Models.{Uuid, DateTime, ShortUrl, admits_short_url}
use fastapi_url_shortener.Postgres.{Postgres}
use fastapi_url_shortener.Postgres.Laws.{IsPostgres}
use fastapi_url_shortener.Redis.{Redis}
use fastapi_url_shortener.Redis.Laws.{IsTextStore}
use fastapi_url_shortener.Formats.{Formats}
use fastapi_url_shortener.Repositories.ShortUrls as Repo
use fastapi_url_shortener.Repositories.ShortUrls.{has_code, is_some, short_code_exists}
use fastapi_url_shortener.Repositories.ShortUrls.WellFormed.{
  IsWellFormed, AliasIsCode, insert-IsWellFormed,
}
use fastapi_url_shortener.Repositories.ShortUrls.Lookup.{link_of, short_code_exists_lem}
use fastapi_url_shortener.Repositories.Query.{first_where-append_none, first_where-append_some}
use fastapi_url_shortener.Repositories.BaseRepository as BaseRepo
use fastapi_url_shortener.Cache.UrlCache
use fastapi_url_shortener.Utils.UrlValidator.{UrlParsers, is_safe_url}
use fastapi_url_shortener.UrlService.{
  store_link, UrlCreateRequest, UrlResponse, new_row, is_valid_create, generate_unique_code,
  choose_code, create, to_response, serialize,
}
use Prim.Native.String.{count}
use fastapi_url_shortener.UrlService.Codes.{Outcome, generate_unique_code_lem}
use fastapi_url_shortener.Redirect.Resolve.{IsCoherent}
use fastapi_url_shortener.Redirect.Coherent.{IsCoherent-setex}

-- The schema lets no empty alias through.
alias_nonempty :
    (now : DateTime) (d : UrlCreateRequest) (a : String)
    → is_valid_create now d ≡ true
    → d.custom_alias ≡ some a
    → (a == "") ≡ false
unfolding is_valid_create
alias_nonempty now d a h e = elim (Bool-cases (a == "")) [
  | inl empty ↦ ground (arith, ap count ((eq_iff a "").0 empty))
  | inr filled ↦ filled
]

module _ ⦃pg : Postgres⦄ (db : pg.Db) (wf : IsWellFormed (pg.short_urls.rows db))
    (settings : Settings) (candidate : ℕ → String) where
  -- A free code, which is the alias if there is one; or an error. The database stays.
  abbrev Chosen : Option String → Result String × pg.Db → Type 0
  Chosen alias (ok c, db') =
      (db' ≡ db) × (link_of c (pg.short_urls.rows db) ≡ none) × ((alias ≡ none) ⊎ (alias ≡ some c))
  Chosen alias (err e, db') = db' ≡ db

  Chosen-generated :
      (n i : ℕ) (st : Result String × pg.Db)
      → Outcome db wf n i candidate st.0
      → st.1 ≡ db
      → Chosen none st
  Chosen-generated n i (ok c, db') (inl (failed, taken)) same = cc
  Chosen-generated n i (ok c, db') (inr (k, below, found, free, before)) same = (
    same,
    ground (
      arith,
      ap (λ x. link_of x (pg.short_urls.rows db)) {x = c} {y = candidate (i + k)} (ground arith),
    ),
    inl refl,
  )
  Chosen-generated n i (err e, db') outcome same = same

  choose_code-Chosen :
      (alias : Option String)
      → ((a : String) → alias ≡ some a → (a == "") ≡ false)
      → Chosen alias (choose_code settings alias candidate db)
  unfolding choose_code
  choose_code-Chosen none filled =
      let (outcome, same) =
        generate_unique_code_lem db wf settings.max_collision_retries 0 candidate in
      Chosen-generated settings.max_collision_retries 0
        (generate_unique_code settings.max_collision_retries 0 candidate db) outcome same
  choose_code-Chosen (some a) filled =
      rw (filled a refl, short_code_exists_lem db wf a)
        (elim (Option-cases (link_of a (pg.short_urls.rows db))) [
          | inl free ↦ rw free (refl, free, inr refl)
          | inr (u, taken) ↦ rw taken refl
        ])

-- A row that PostgreSQL took in was admitted, and stands at the end.
module _ ⦃pg : Postgres⦄ (laws : IsPostgres pg) (u : ShortUrl) (db db' : pg.Db) where
  added :
      pg.short_urls.add u db ≡ some db'
      → (admits_short_url (pg.users.rows db) (pg.short_urls.rows db) u ≡ true)
        × (pg.short_urls.rows db' ≡ pg.short_urls.rows db ++ u ∷ [])
  added h = ground (arith, laws.short_urls.rows-add u db)

module _ ⦃pg : Postgres⦄ ⦃r : Redis⦄ ⦃f : Formats⦄ ⦃p : UrlParsers⦄ (laws : IsPostgres pg)
    (texts : IsTextStore r) (settings : Settings) (w : World pg r)
    (wf : IsWellFormed (pg.short_urls.rows w.db)) (clean : IsCoherent f w)
    (open_cache : 0 < settings.url_cache_ttl) where
  -- The links stay well-formed and the cache coherent; after a normal end the code of the response
  -- leads to the new link, and after an exception nothing has changed.
  pub record IsCreated (u : ShortUrl) (w' : World pg r) : Type 0 where
    pub well_formed : IsWellFormed (pg.short_urls.rows w'.db)
    pub coherent : IsCoherent f w'
    pub appended : pg.short_urls.rows w'.db ≡ pg.short_urls.rows w.db ++ u ∷ []
    pub found : link_of u.short_code (pg.short_urls.rows w'.db) ≡ some u
    pub clicks : pg.click_events.rows w'.db ≡ pg.click_events.rows w.db

  inserted :
      (u : ShortUrl) (db' : pg.Db)
      → pg.short_urls.add u w.db ≡ some db'
      → u.is_active ≡ true
      → AliasIsCode u
      → link_of u.short_code (pg.short_urls.rows w.db) ≡ none
      → IsCreated u (record {
        db = db';
        store =
            r.setex
              (UrlCache.key u.short_code)
              settings.url_cache_ttl
              (f.dumps (serialize f u))
              w.store;
      })
  unfolding has_code
  inserted u db' h active alias free =
      let (admitted, rows) = added laws u w.db db' h in
      let found : link_of u.short_code (pg.short_urls.rows db') ≡ some u = rw rows (
        first_where-append_none (has_code u.short_code) (pg.short_urls.rows w.db) u free
        ∙ rw (==_refl u.short_code)) in
      record {
        well_formed = rw rows (
            insert-IsWellFormed (pg.users.rows w.db) (pg.short_urls.rows w.db) u admitted alias wf);
        coherent =
            IsCoherent-setex texts w clean db' u.short_code settings.url_cache_ttl u open_cache
              found active
              (λ c x link.
                rw rows (first_where-append_some (has_code c) (pg.short_urls.rows w.db) u link));
        appended = rows;
        found = found;
        clicks = laws.short_urls_apart.rows-add u w.db db' h;
      }

  module _ (d : UrlCreateRequest) (owner_id : Option Uuid) (id : Uuid) (now : DateTime)
      (candidate : ℕ → String) where
    abbrev pub Finished : Result UrlResponse × World pg r → Type 0
    Finished (ok response, w') =
        (u : ShortUrl) × (u ≡ new_row id now owner_id d response.short_code)
        × (response ≡ to_response settings u)
        × IsCreated u w'
    Finished (err e, w') = w' ≡ w

    store_link-refused :
        (c : String)
        → pg.short_urls.add (new_row id now owner_id d c) w.db ≡ none
        → store_link settings d owner_id id now c w ≡ (err dbapi_error, w)
    unfolding store_link Repo.create BaseRepo.create UrlCache.set
    store_link-refused c h = rw (h, attempt)

    store_link-stored :
        (c : String) (db' : pg.Db)
        → pg.short_urls.add (new_row id now owner_id d c) w.db ≡ some db'
        → store_link settings d owner_id id now c w ≡ (
          ok (to_response settings (new_row id now owner_id d c)),
          record {
            db = db';
            store =
                r.setex
                  (UrlCache.key c)
                  settings.url_cache_ttl
                  (f.dumps (serialize f (new_row id now owner_id d c)))
                  w.store;
          },
        )
    unfolding store_link Repo.create BaseRepo.create UrlCache.set
    store_link-stored c db' h = rw (h, attempt)

    store_link-Finished :
        (c : String)
        → link_of c (pg.short_urls.rows w.db) ≡ none
        → ((d.custom_alias ≡ none) ⊎ (d.custom_alias ≡ some c))
        → Finished (store_link settings d owner_id id now c w)
    unfolding to_response
    store_link-Finished c free alias =
        let u = new_row id now owner_id d c in
        elim (Option-cases (pg.short_urls.add u w.db)) [
          | inl refused ↦ rw (store_link-refused c refused) refl
          | inr (db', h) ↦
              rw (store_link-stored c db' h) (u, refl, refl, inserted u db' h refl alias free)
        ]

    Chosen-Finished :
        (st : Result String × pg.Db)
        → Chosen w.db wf settings candidate d.custom_alias st
        → Finished (resume (st.0, record w { db = st.1 }) (store_link settings d owner_id id now))
    Chosen-Finished (ok c, db') (same, free, alias) = rw same (store_link-Finished c free alias)
    Chosen-Finished (err e, db') same = rw same refl

    -- `create` of a request that the schema accepts, on well-formed links with a coherent cache
    -- whose entries have a positive time to live: after a normal end the response shows the new
    -- row, which stands behind the others, the links are well-formed, the cache is coherent and
    -- the code of the response leads to the row, and the stored clicks are unchanged; after an
    -- exception neither the database nor the cache has changed.
    pub create_lem :
        is_valid_create now d ≡ true → Finished (create settings d owner_id id now candidate w)
    unfolding create
    create_lem valid = elim (Bool-cases (is_safe_url d.original_url)) [
      | inl safe ↦ rw safe (
          Chosen-Finished (choose_code settings d.custom_alias candidate w.db) (
            choose_code-Chosen w.db wf settings candidate d.custom_alias
              (λ a. alias_nonempty now d a valid)))
      | inr unsafe ↦ rw unsafe refl
    ]
