-- ===== src/UrlService/Touched.antt =====
-- What `update` and `delete` of app/services/url.py leave of the keys of Redis that are none of the
-- URL cache.
use fastapi_url_shortener.Base.{
  String, ◌≡◌, ◌≢◌, ◌∙◌, refl, Bool, not, ◌&&◌, some, [], ◌∷◌, arith, ◌==◌, nat_eq, string_eq,
  option_eq, eq_iff, inl, inr, Bool-cases, Option-cases,
}
use fastapi_url_shortener.Core.Settings.{Settings}
use fastapi_url_shortener.Core.World.{World}
use fastapi_url_shortener.Models.{Uuid, DateTime, ShortUrl}
use fastapi_url_shortener.Postgres.{Postgres}
use fastapi_url_shortener.Redis.{Redis}
use fastapi_url_shortener.Redis.Laws.{IsTextStore}
use fastapi_url_shortener.Formats.{Formats}
use fastapi_url_shortener.Repositories.BaseRepository as BaseRepo
use fastapi_url_shortener.Repositories.Query.{first_where}
use fastapi_url_shortener.Repositories.ShortUrls as Repo
use fastapi_url_shortener.Repositories.ShortUrls.WellFormed.{IsWellFormed}
use fastapi_url_shortener.Repositories.ShortUrls.Lookup.{get_by_id_lem}
use fastapi_url_shortener.Cache.UrlCache
use fastapi_url_shortener.Cache.UrlCache.{key, hot_key}
use fastapi_url_shortener.UrlService.{UrlUpdateRequest, set_fields, invalidate, update, delete}
use fastapi_url_shortener.UrlService.Invalidation.{invalidate-ok}

-- A key that is none of the URL cache.
pub record IsElsewhere (k : String) : Type 0 where
  pub no_link : (c : String) → key c ≢ k
  pub no_counter : (c : String) → hot_key c ≢ k

module _ ⦃pg : Postgres⦄ ⦃r : Redis⦄ ⦃f : Formats⦄ (texts : IsTextStore r) (settings : Settings)
    (k : String) (elsewhere : IsElsewhere k) where
  get-forgotten :
      (c : String) (s : r.Store) → r.get k (r.delete (key c ∷ hot_key c ∷ []) s) ≡ r.get k s
  get-forgotten c s = ground (
    arith,
    texts.get-delete k (key c ∷ hot_key c ∷ []) s,
    eq_iff (key c) k,
    eq_iff (hot_key c) k,
    elsewhere.no_link c,
    elsewhere.no_counter c,
  )

  get-invalidate : (u : ShortUrl) (s : r.Store) → r.get k (invalidate settings u s).1 ≡ r.get k s
  unfolding invalidate UrlCache.delete
  get-invalidate u s = elim (Option-cases u.custom_alias) [
    | inl no_alias ↦ rw no_alias (get-forgotten u.short_code s)
    | inr (a, alias) ↦ elim (Bool-cases (a == "")) [
      | inl empty ↦ rw (alias, empty) (get-forgotten u.short_code s)
      | inr filled ↦
          rw (alias, filled)
            (get-forgotten a (r.delete (key u.short_code ∷ hot_key u.short_code ∷ []) s)
              ∙ get-forgotten u.short_code s)
    ]
  ]

  module _ (w : World pg r) (wf : IsWellFormed (pg.short_urls.rows w.db)) (url_id : Uuid)
      (requester_id : Uuid) (is_admin : Bool) where
    pub get-delete :
        r.get k (delete settings url_id requester_id is_admin w).1.store ≡ r.get k w.store
    unfolding delete Repo.delete BaseRepo.delete
    get-delete = elim (Option-cases (first_where (λ v. v.id == url_id) (pg.short_urls.rows w.db))) [
      | inl missing ↦ rw (get_by_id_lem w.db wf url_id, missing) refl
      | inr (u, known) ↦ elim (Bool-cases (not is_admin && not (u.owner_id == some requester_id))) [
        | inl shut ↦ rw (get_by_id_lem w.db wf url_id, known, shut) refl
        | inr open_guard ↦
            rw (get_by_id_lem w.db wf url_id, known, open_guard, invalidate-ok settings u w.store)
              (get-invalidate u w.store)
      ]
    ]

    pub get-update :
        (d : UrlUpdateRequest) (now : DateTime)
        → r.get k (update settings url_id d requester_id is_admin now w).1.store ≡ r.get k w.store
    unfolding update Repo.update BaseRepo.update
    get-update d now =
        elim (Option-cases (first_where (λ v. v.id == url_id) (pg.short_urls.rows w.db))) [
          | inl missing ↦ rw (get_by_id_lem w.db wf url_id, missing) refl
          | inr (u, known) ↦
              elim (Bool-cases (not is_admin && not (u.owner_id == some requester_id))) [
                | inl shut ↦ rw (get_by_id_lem w.db wf url_id, known, shut) refl
                | inr open_guard ↦
                    rw
                      (
                        get_by_id_lem w.db wf url_id,
                        known,
                        open_guard,
                        invalidate-ok settings (set_fields now d u) w.store,
                      )
                      (get-invalidate (set_fields now d u) w.store)
              ]
        ]
