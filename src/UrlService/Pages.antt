-- ===== src/UrlService/Pages.antt =====
-- `list_by_owner` of app/services/url.py: the pages of an owner's links.
use native.Mathlib.Nat.{suc-mul, mul-le-mul_right, mul-div-le, lt-mul-div-succ}
use fastapi_url_shortener.Base.{
  ℕ, zero, suc, ◌+◌, ◌-◌, ◌*◌, ◌/◌, ◌≤◌, ◌<◌, ◌≡◌, ◌↔◌, refl, sym, ap, ap₂, ◌∙◌, some, List, [],
  ◌∷◌, ◌++◌, map, arith, ◌==◌, leb, nat_eq, option_eq, length, take, drop, select, length-drop,
  length-take-le, inl, inr, Bool-cases,
}
use fastapi_url_shortener.Core.Settings.{Settings}
use fastapi_url_shortener.Models.{Uuid, ShortUrl}
use fastapi_url_shortener.Postgres.{Postgres}
use fastapi_url_shortener.Redis.{Redis}
use fastapi_url_shortener.Formats.{Formats}
use fastapi_url_shortener.Repositories.Query.{order_by_desc, order_by}
use fastapi_url_shortener.Repositories.Ordered.{
  IsDescending, order_by_desc-IsDescending, length-order_by_desc, length-order_by, length-map,
  AreApart, order_by_desc-order_by, IsDescending-map, IsDescending-take, IsDescending-drop,
}
use fastapi_url_shortener.Repositories.ShortUrls.{get_by_owner}
use fastapi_url_shortener.UrlService.{UrlResponse, to_response, page_count, list_by_owner}

module _ {A : Type 0} where
  take-nil : (n : ℕ) → take {A = A} n [] ≡ []
  take-nil zero = refl
  take-nil (suc n) = refl

  take-add : (m n : ℕ) (xs : List A) → take (m + n) xs ≡ take m xs ++ take n (drop m xs)
  take-add zero n xs = ap (λ k. take k xs) {x = 0 + n} {y = n} (omega arith)
  take-add (suc m) n [] =
      ap (λ k. take k []) {x = suc m + n} {y = suc (m + n)} (omega arith) ∙ sym (take-nil n)
  take-add (suc m) n (x ∷ xs) =
      ap (λ k. take k (x ∷ xs)) {x = suc m + n} {y = suc (m + n)} (omega arith)
      ∙ ap (◌∷◌ x) (take-add m n xs)

  take-all : (n : ℕ) (xs : List A) → length xs ≤ n → take n xs ≡ xs
  take-all zero [] h = refl
  take-all zero (x ∷ xs) h = absurd (omega arith)
  take-all (suc n) [] h = refl
  take-all (suc n) (x ∷ xs) h = ap (◌∷◌ x) (take-all n xs (omega (arith, h)))

  map-take : {B : Type 0} (f : A → B) (n : ℕ) (xs : List A) → map f (take n xs) ≡ take n (map f xs)
  map-take f zero xs = refl
  map-take f (suc n) [] = refl
  map-take f (suc n) (x ∷ xs) = ap (◌∷◌ (f x)) (map-take f n xs)

  map-drop : {B : Type 0} (f : A → B) (n : ℕ) (xs : List A) → map f (drop n xs) ≡ drop n (map f xs)
  map-drop f zero xs = refl
  map-drop f (suc n) [] = refl
  map-drop f (suc n) (x ∷ xs) = map-drop f n xs

  take-nonempty : (n : ℕ) (xs : List A) → 0 < n → (0 < length (take n xs)) ↔ (0 < length xs)
  take-nonempty zero xs h = absurd (omega (arith, h))
  take-nonempty (suc n) [] h = (λ some. some, λ some. some)
  take-nonempty (suc n) (x ∷ xs) h = (λ some. ground arith, λ some. ground arith)

before :
    (total size : ℕ)
    → 0 < size
    → 0 < total
    → (page : ℕ) → 0 < page
    → page ≤ (total + (size - 1)) / size
    → (page - 1) * size < total
before total size some_size some_links zero first last = absurd (omega (arith, first))
before total size some_size some_links (suc p) first last =
    let here : suc p - 1 ≡ p = omega arith in
    rw here (
      omega (
        arith,
        suc-mul p size,
        mul-le-mul_right size last,
        mul-div-le (total + (size - 1)) size,
        some_size,
      ))

drop-one : (n : ℕ) → suc n - 1 ≡ n
drop-one n = omega arith

-- The pages are as many as it takes, and no more.
page_count_lem :
    (total size : ℕ)
    → 0 < size
    → (total ≤ page_count total size * size)
      × ((page : ℕ) → 0 < page → page ≤ page_count total size → (page - 1) * size < total)
unfolding page_count
page_count_lem total size some_size = elim (Bool-cases (total == 0)) [
  | inl nothing ↦ rw nothing (ground arith, λ page first last. absurd (omega (arith, first, last)))
  | inr busy ↦ rw busy (
    omega (arith, lt-mul-div-succ (total + (size - 1)) some_size),
    λ page first last. before total size some_size (ground arith) page (omega (arith, first)) last,
  )
]

module _ ⦃pg : Postgres⦄ ⦃r : Redis⦄ ⦃f : Formats⦄ (settings : Settings) (owner_id : Uuid)
    (db : pg.Db) where
  abbrev pub owned : List ShortUrl
  owned = select (λ u. u.owner_id == some owner_id) (pg.short_urls.rows db)

  -- The links of the owner, the newest first, where the order of those of one time is given.
  abbrev pub ordered : (ShortUrl → ℕ) → List ShortUrl
  ordered ties = order_by_desc (λ u. u.created_at) (order_by ties owned)

  -- The same, where no two are of one time.
  abbrev pub newest_first : List ShortUrl
  newest_first = order_by_desc (λ u. u.created_at) owned

  -- The first `n` pages, one after the other. Every page is a query of its own, with its own order
  -- of the links of one time.
  abbrev pub first_pages : (ℕ → ShortUrl → ℕ) → ℕ → ℕ → List UrlResponse
  first_pages ties size zero = []
  first_pages ties size (suc n) =
      first_pages ties size n ++ (list_by_owner settings (ties n) owner_id (suc n) size db).items

  module _ (size : ℕ) where
    items-page :
        (ties : ShortUrl → ℕ) (n : ℕ)
        → (list_by_owner settings ties owner_id (suc n) size db).items
          ≡ take size (drop (n * size) (map (to_response settings) (ordered ties)))
    unfolding list_by_owner get_by_owner
    items-page ties n =
        ap (λ k. map (to_response settings) (take size (drop (k * size) (ordered ties))))
          {x = suc n - 1} {y = n} (omega arith)
        ∙ map-take (to_response settings) size (drop (n * size) (ordered ties))
        ∙ ap (take size) (map-drop (to_response settings) (n * size) (ordered ties))

    abbrev total : ℕ
    total = length owned

    length-ordered :
        (ties : ShortUrl → ℕ) → length (map (to_response settings) (ordered ties)) ≡ total
    length-ordered ties = omega (
      arith,
      length-map (to_response settings) (ordered ties),
      length-order_by_desc (λ (u : ShortUrl). u.created_at) (order_by ties owned),
      length-order_by ties owned,
    )

    length-newest_first : length (map (to_response settings) newest_first) ≡ total
    length-newest_first = omega (
      arith,
      length-map (to_response settings) newest_first,
      length-order_by_desc (λ (u : ShortUrl). u.created_at) owned,
    )

    module _ (apart : AreApart (λ u. u.created_at) owned) where
      first_pages-take :
          (ties : ℕ → ShortUrl → ℕ) (n : ℕ)
          → first_pages ties size n ≡ take (n * size) (map (to_response settings) newest_first)
      first_pages-take ties zero =
          ap (λ k. take k (map (to_response settings) newest_first)) {x = 0} {y = 0 * size}
            (omega arith)
      first_pages-take ties (suc n) =
          ap₂ (λ a b. a ++ b) (first_pages-take ties n)
            (items-page (ties n) n
              ∙ ap (λ xs. take size (drop (n * size) (map (to_response settings) xs)))
                  (order_by_desc-order_by (λ u. u.created_at) (ties n) owned apart))
          ∙ sym (take-add (n * size) size (map (to_response settings) newest_first))
          ∙ ap (λ k. take k (map (to_response settings) newest_first)) {x = n * size + size}
              {y = suc n * size} (omega arith)

      -- All pages of `list_by_owner` together are the links of the owner, each once, the newest
      -- first, whichever page says how many there are. A page has a positive size, the links do not
      -- change from one page to the next, and no two of them were created at the same time (the
      -- query orders by nothing else).
      pub first_pages-pages :
          0 < size
          → (ties : ℕ → ShortUrl → ℕ) (one : ShortUrl → ℕ) (page : ℕ)
          → first_pages ties size (list_by_owner settings one owner_id page size db).pages
            ≡ map (to_response settings) newest_first
      unfolding list_by_owner get_by_owner
      first_pages-pages some_size ties one page =
          first_pages-take ties (page_count total size)
          ∙ take-all (page_count total size * size) (map (to_response settings) newest_first)
              (omega (arith, length-newest_first, (page_count_lem total size some_size).0))

    responses-IsDescending :
        (ties : ShortUrl → ℕ)
        → IsDescending (λ u. u.created_at) (map (to_response settings) (ordered ties))
    unfolding to_response
    responses-IsDescending ties =
        IsDescending-map (to_response settings) (λ u. u.created_at) (ordered ties)
          (order_by_desc-IsDescending (λ u. u.created_at) (order_by ties owned))

    reaches :
        (ties : ShortUrl → ℕ) (n : ℕ)
        → 0 < size
        → (suc n ≤ (list_by_owner settings ties owner_id (suc n) size db).pages)
          ↔ (n * size < total)
    unfolding list_by_owner get_by_owner
    reaches ties n some_size = (
      λ last.
          rw (← drop-one n) ((page_count_lem total size some_size).1 (suc n) (ground arith) last),
      λ more. elim (Bool-cases (leb (page_count total size) n)) [
        | inr within ↦ ground arith
        | inl over ↦
            let beyond : page_count total size ≤ n = ground arith in
            absurd (
              omega (
                arith,
                more,
                mul-le-mul_right size beyond,
                (page_count_lem total size some_size).0,
              ))
      ],
    )

    -- A page of `list_by_owner` has at most the asked number of items, the newest first; the pages
    -- from the first to the last are not empty, and a later page is; however the links of one time
    -- are ordered. Pages count from 1, and have a positive size.
    pub list_by_owner-IsPage :
        (ties : ShortUrl → ℕ) (n : ℕ)
        → 0 < size
        → let page = list_by_owner settings ties owner_id (suc n) size db in
          (length page.items ≤ size)
          × IsDescending (λ u. u.created_at) page.items
          × ((suc n ≤ page.pages) ↔ (0 < length page.items))
    list_by_owner-IsPage ties n some_size =
        let whole = map (to_response settings) (ordered ties) in
        let rest = drop (n * size) whole in
        let nonempty = take-nonempty size rest some_size in
        let left = length-drop (n * size) whole in
        rw (items-page ties n) (
          length-take-le size rest,
          IsDescending-take (λ u. u.created_at) size rest
              (IsDescending-drop (λ u. u.created_at) (n * size) whole
                (responses-IsDescending ties)),
          (
            λ last.
                nonempty.1
                  (omega (arith, left, length-ordered ties, (reaches ties n some_size).0 last)),
            λ some_items.
                (reaches ties n some_size).1
                  (omega (arith, left, length-ordered ties, nonempty.0 some_items)),
          ),
        )
