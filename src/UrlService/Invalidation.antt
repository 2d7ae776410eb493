-- ===== src/UrlService/Invalidation.antt =====
-- The invalidation that `update` and `delete` of app/services/url.py make, and what such a change
-- is.
use fastapi_url_shortener.Base.{
  subst, ==_refl, String, ◌≡◌, ap, sym, Bool, true, false, ◌||◌, some, List, [], ◌∷◌, arith, ◌==◌,
  nat_eq, string_eq, option_eq, eq_iff, inl, inr, Bool-cases, Option-cases,
}
use fastapi_url_shortener.Core.Action.{ok}
use fastapi_url_shortener.Core.Settings.{Settings}
use fastapi_url_shortener.Core.World.{World}
use fastapi_url_shortener.Models.{Uuid, ShortUrl, ClickEvent}
use fastapi_url_shortener.Postgres.{Postgres}
use fastapi_url_shortener.Postgres.Laws.{IsPostgres}
use fastapi_url_shortener.Redis.{Redis}
use fastapi_url_shortener.Redis.Laws.{IsTextStore}
use fastapi_url_shortener.Formats.{Formats}
use fastapi_url_shortener.Repositories.ShortUrls.{has_code}
use fastapi_url_shortener.Repositories.ShortUrls.WellFormed.{IsWellFormed, AliasIsCode}
use fastapi_url_shortener.Repositories.ShortUrls.Lookup.{link_of}
use fastapi_url_shortener.Repositories.Query.{
  first_where, first_where_unique, first_where-passes, All-first_where,
}
use fastapi_url_shortener.Cache.UrlCache
use fastapi_url_shortener.Cache.UrlCache.{key, hot_key}
use fastapi_url_shortener.UrlService.{invalidate}
use fastapi_url_shortener.Redirect.Resolve.{IsCoherent}

module _ ⦃pg : Postgres⦄ ⦃r : Redis⦄ ⦃f : Formats⦄ (texts : IsTextStore r)
    (settings : Settings) where
  -- What is still in the cache after the invalidation of a link was there before, under another
  -- code.
  kept :
      (code c raw : String) (s : r.Store)
      → r.get (key c) (r.delete (key code ∷ hot_key code ∷ []) s) ≡ some raw
      → (r.get (key c) s ≡ some raw) × ((code == c) ≡ false)
  kept code c raw s h = ground (
    arith,
    texts.get-delete (key c) (key code ∷ hot_key code ∷ []) s,
    eq_iff code c,
    ap key {x = code} {y = c},
    ==_refl (key c),
  )

  invalidate-kept :
      (u : ShortUrl) (c raw : String) (s : r.Store)
      → r.get (key c) (invalidate settings u s).1 ≡ some raw
      → (r.get (key c) s ≡ some raw) × ((u.short_code == c) ≡ false)
  unfolding invalidate UrlCache.delete
  invalidate-kept u c raw s h = elim (Option-cases u.custom_alias) [
    | inl no_alias ↦ kept u.short_code c raw s (rw no_alias at h)
    | inr (a, alias) ↦ elim (Bool-cases (a == "")) [
      | inl empty ↦ kept u.short_code c raw s (rw (alias, empty) at h)
      | inr filled ↦
          let s₁ = r.delete (key u.short_code ∷ hot_key u.short_code ∷ []) s in
          kept u.short_code c raw s (kept a c raw s₁ (rw (alias, filled) at h)).0
    ]
  ]

module _ ⦃pg : Postgres⦄ ⦃r : Redis⦄ ⦃f : Formats⦄ where
  pub invalidate-ok :
      (settings : Settings) (u : ShortUrl) (s : r.Store) → (invalidate settings u s).0 ≡ ok tt
  unfolding invalidate UrlCache.delete
  invalidate-ok settings u s = elim (Option-cases u.custom_alias) [
    | inl no_alias ↦ rw no_alias
    | inr (a, alias) ↦ elim (Bool-cases (a == "")) [
      | inl empty ↦ rw (alias, empty)
      | inr filled ↦ rw (alias, filled)
    ]
  ]

module _ ⦃pg : Postgres⦄ ⦃r : Redis⦄ ⦃f : Formats⦄ (laws : IsPostgres pg) (texts : IsTextStore r)
    (settings : Settings) (w : World pg r) (wf : IsWellFormed (pg.short_urls.rows w.db))
    (clean : IsCoherent f w) (u : ShortUrl)
    (known : first_where (λ v. v.id == u.id) (pg.short_urls.rows w.db) ≡ some u) where
  abbrev is_it : ShortUrl → Bool
  is_it v = v.id == u.id

  -- Another code than the link's leads to another row.
  other_row :
      (c : String) (x : ShortUrl)
      → (u.short_code == c) ≡ false
      → AliasIsCode u
      → link_of c (pg.short_urls.rows w.db) ≡ some x
      → is_it x ≡ false
  unfolding has_code
  other_row c x other alias link = elim (Bool-cases (is_it x)) [
    | inl same ↦
        let e : x ≡ u =
          first_where_unique is_it (has_code c) (pg.short_urls.rows w.db) {x = x} {u = u}
            (wf.unique_ids u.id) known link same in
        let here : has_code c u ≡ true =
          rw (← e) (first_where-passes (has_code c) (pg.short_urls.rows w.db) {x = x} link) in
        ground (arith, eq_iff u.short_code c)
    | inr different ↦ different
  ]

  found_alias : AliasIsCode u
  found_alias = All-first_where AliasIsCode is_it (pg.short_urls.rows w.db) {x = u} wf.aliases known

  abbrev emptied : r.Store
  emptied = (invalidate ⦃pg = pg⦄ settings u w.store).1

  -- A change of the rows by which every other code leads where it led, with the invalidation.
  pub IsCoherent-invalidate :
      (db' : pg.Db)
      → ((c : String) (x : ShortUrl)
          → link_of c (pg.short_urls.rows w.db) ≡ some x
          → is_it x ≡ false
          → link_of c (pg.short_urls.rows db') ≡ some x)
      → IsCoherent {pg = pg} {r = r} f (record { db = db'; store = emptied })
  IsCoherent-invalidate db' still = record {
    at = λ c raw hit.
        let (before, other) = invalidate-kept texts settings u c raw w.store hit in
        let (x, link, payload, live) = clean.at c raw before in
        (x, still c x link (other_row c x other found_alias link), payload, live);
  }

-- The link of the id, which the requester may change: its owner, or an admin.
pub record IsAllowed (urls : List ShortUrl) (url_id requester_id : Uuid) (is_admin : Bool)
    (u : ShortUrl) : Type 0 where
  pub known : first_where (λ v. v.id == url_id) urls ≡ some u
  pub allowed : (is_admin || u.owner_id == some requester_id) ≡ true

-- The rows are `urls` and `clicks` now, and the links are well-formed with a coherent cache.
pub record IsChanged {pg : Postgres} {r : Redis} (f : Formats) (urls : List ShortUrl)
    (clicks : List ClickEvent) (w : World pg r) : Type 0 where
  pub rows : pg.short_urls.rows w.db ≡ urls
  pub events : pg.click_events.rows w.db ≡ clicks
  pub well_formed : IsWellFormed (pg.short_urls.rows w.db)
  pub coherent : IsCoherent f w

-- The row is the one with its id.
pub own_id :
    (urls : List ShortUrl) (url_id : Uuid) (u : ShortUrl)
    → first_where (λ v. v.id == url_id) urls ≡ some u
    → first_where (λ v. v.id == u.id) urls ≡ some u
own_id urls url_id u known =
    let passes : (u.id == url_id) ≡ true =
      first_where-passes (λ v. v.id == url_id) urls {x = u} known in
    let same : u.id ≡ url_id = ground arith in
    subst (λ i. first_where (λ v. v.id == i) urls ≡ some u) (sym same) known
