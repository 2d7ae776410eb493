-- ===== src/Repositories/ShortUrls/Counted.antt =====
-- The click counts of the links beside the stored clicks.
use fastapi_url_shortener.Base.{
  ◌≤◌, ◌≡◌, refl, sym, ◌∙◌, Bool, true, false, not, ◌&&◌, List, [], ◌∷◌, ◌++◌, map, arith, ◌==◌,
  nat_eq, nat_eqb_iff, any, select, update_where, count_where, count_where-append, All, All-append,
  All-update_where, inl, inr, Bool-cases,
}
use fastapi_url_shortener.Models.{Uuid, ShortUrl, ClickEvent}

-- The count of every link is the number of its stored clicks, and every click is of a link.
pub record IsCounted (urls : List ShortUrl) (clicks : List ClickEvent) : Type 0 where
  pub counts : All (λ u. u.click_count ≡ count_where (λ e. e.short_url_id == u.id) clicks) urls
  pub owned : All (λ e. any (λ u. u.id == e.short_url_id) urls ≡ true) clicks

any-append_left :
    {A : Type 0} (p : A → Bool) (xs ys : List A) → any p xs ≡ true → any p (xs ++ ys) ≡ true
any-append_left p [] ys h = cc
any-append_left p (x ∷ xs) ys h = ground (arith, any-append_left p xs ys)

All-mono :
    {A : Type 0} (P Q : A → Type 0) (xs : List A) → ((x : A) → P x → Q x) → All P xs → All Q xs
All-mono P Q [] h a = tt
All-mono P Q (x ∷ xs) h a = (h x a.0, All-mono P Q xs h a.1)

count-any : {A : Type 0} (p : A → Bool) (xs : List A) → count_where p xs ≡ 0 → any p xs ≡ false
count-any p [] h = refl
count-any p (x ∷ xs) h = ground (arith, count-any p xs)

-- A link without a row has no clicks.
no_clicks :
    (i : Uuid) (urls : List ShortUrl) (clicks : List ClickEvent)
    → count_where (λ u. u.id == i) urls ≡ 0
    → All (λ e. any (λ u. u.id == e.short_url_id) urls ≡ true) clicks
    → count_where (λ e. e.short_url_id == i) clicks ≡ 0
no_clicks i urls [] absent owned = refl
no_clicks i urls (e ∷ clicks) absent owned = elim (Bool-cases (e.short_url_id == i)) [
  | inl same ↦
      let here : e.short_url_id ≡ i = (nat_eqb_iff e.short_url_id i).0 same in
      let known : any (λ u. u.id == i) urls ≡ true = rw (← here) owned.0 in
      cc (known, count-any (λ u. u.id == i) urls absent)
  | inr other ↦ rw other (omega (arith, no_clicks i urls clicks absent owned.1))
]

pub insert-IsCounted :
    (urls : List ShortUrl) (clicks : List ClickEvent) (u : ShortUrl)
    → count_where (λ v. v.id == u.id) (urls ++ u ∷ []) ≤ 1
    → u.click_count ≡ 0
    → IsCounted urls clicks
    → IsCounted (urls ++ u ∷ []) clicks
insert-IsCounted urls clicks u single zero c =
    let absent : count_where (λ v. v.id == u.id) urls ≡ 0 = ground (
      arith,
      count_where-append (λ v. v.id == u.id) urls (u ∷ []),
      (nat_eqb_iff u.id u.id).1 refl,
    ) in
    record {
      counts =
          All-append (λ v. v.click_count ≡ count_where (λ e. e.short_url_id == v.id) clicks) urls
            (u ∷ []) c.counts (zero ∙ sym (no_clicks u.id urls clicks absent c.owned), tt);
      owned =
          All-mono (λ e. any (λ v. v.id == e.short_url_id) urls ≡ true)
            (λ e. any (λ v. v.id == e.short_url_id) (urls ++ u ∷ []) ≡ true) clicks
            (λ e h. any-append_left (λ v. v.id == e.short_url_id) urls (u ∷ []) h) c.owned;
    }

module _ (urls : List ShortUrl) (clicks : List ClickEvent) (c : IsCounted urls clicks) where
  any-update_where :
      (i : Uuid) (q : ShortUrl → Bool) (f : ShortUrl → ShortUrl)
      → ((u : ShortUrl) → (f u).id ≡ u.id)
      → (xs : List ShortUrl) → any (λ u. u.id == i) (update_where q f xs) ≡ any (λ u. u.id == i) xs
  any-update_where i q f same [] = refl
  any-update_where i q f same (x ∷ xs) = ground (arith, same x, any-update_where i q f same xs)

  -- A change of rows that keeps their ids and counts.
  pub update-IsCounted :
      (q : ShortUrl → Bool) (f : ShortUrl → ShortUrl)
      → ((u : ShortUrl) → (f u).id ≡ u.id)
      → ((u : ShortUrl) → (f u).click_count ≡ u.click_count)
      → IsCounted (update_where q f urls) clicks
  update-IsCounted q f same_id same_count = record {
    counts =
        All-update_where (λ v. v.click_count ≡ count_where (λ e. e.short_url_id == v.id) clicks) q f
          (λ u h. rw (same_id u, same_count u) h) urls c.counts;
    owned =
        All-mono (λ e. any (λ v. v.id == e.short_url_id) urls ≡ true)
          (λ e. any (λ v. v.id == e.short_url_id) (update_where q f urls) ≡ true) clicks
          (λ e h. any-update_where e.short_url_id q f same_id urls ∙ h) c.owned;
  }

  module _ (i : Uuid) where
    abbrev kept : ShortUrl → Bool
    kept v = not (v.id == i)

    -- The clicks that go with the row.
    abbrev cascades : ClickEvent → Bool
    cascades e = any (λ v. (v.id == i) && (v.id == e.short_url_id)) urls

    stays-kept :
        (s : Uuid)
        → (s == i) ≡ false
        → (xs : List ShortUrl) → any (λ v. (v.id == i) && (v.id == s)) xs ≡ false
    stays-kept s other [] = refl
    stays-kept s other (x ∷ xs) = ground (arith, stays-kept s other xs)

    count-kept :
        (u : ShortUrl) (es : List ClickEvent)
        → (u.id == i) ≡ false
        → count_where (λ e. e.short_url_id == u.id) (select (λ e. not (cascades e)) es)
          ≡ count_where (λ e. e.short_url_id == u.id) es
    count-kept u [] other = refl
    count-kept u (e ∷ es) other =
        let rest = count-kept u es other in
        elim (Bool-cases (e.short_url_id == u.id)) [
          | inl same ↦
              let stays : cascades e ≡ false = stays-kept e.short_url_id (ground arith) urls in
              rw stays (omega (arith, rest))
          | inr apart ↦ ground (arith, rest)
        ]

    any-kept :
        (s : Uuid) (xs : List ShortUrl)
        → any (λ v. v.id == s) xs ≡ true
        → any (λ v. (v.id == i) && (v.id == s)) xs ≡ false
        → any (λ v. v.id == s) (select kept xs) ≡ true
    any-kept s [] there apart = cc
    any-kept s (x ∷ xs) there apart = ground (arith, any-kept s xs)

    counts-kept :
        (xs : List ShortUrl)
        → All (λ u. u.click_count ≡ count_where (λ e. e.short_url_id == u.id) clicks) xs
        → All
            (λ u.
              u.click_count
              ≡ count_where (λ e. e.short_url_id == u.id) (select (λ e. not (cascades e)) clicks))
            (select kept xs)
    counts-kept [] h = tt
    counts-kept (x ∷ xs) h = elim (Bool-cases (x.id == i)) [
      | inl gone ↦ rw gone (counts-kept xs h.1)
      | inr stays ↦ rw stays (h.0 ∙ sym (count-kept x clicks stays), counts-kept xs h.1)
    ]

    owned-kept :
        (es : List ClickEvent)
        → All (λ e. any (λ v. v.id == e.short_url_id) urls ≡ true) es
        → All
            (λ e. any (λ v. v.id == e.short_url_id) (select kept urls) ≡ true)
            (select (λ e. not (cascades e)) es)
    owned-kept [] h = tt
    owned-kept (e ∷ es) h = elim (Bool-cases (cascades e)) [
      | inl gone ↦ rw gone (owned-kept es h.1)
      | inr stays ↦ rw stays (any-kept e.short_url_id urls h.0 stays, owned-kept es h.1)
    ]

    -- A row goes, and its clicks with it.
    pub delete-IsCounted : IsCounted (select kept urls) (select (λ e. not (cascades e)) clicks)
    delete-IsCounted = record {
      counts = counts-kept urls c.counts;
      owned = owned-kept clicks c.owned;
    }

module _ (clicks new : List ClickEvent) (f : ShortUrl → ShortUrl) where
  any-map :
      (i : Uuid)
      → ((u : ShortUrl) → (f u).id ≡ u.id)
      → (xs : List ShortUrl) → any (λ u. u.id == i) (map f xs) ≡ any (λ u. u.id == i) xs
  any-map i same [] = refl
  any-map i same (x ∷ xs) = ground (arith, same x, any-map i same xs)

  -- New clicks of links that are there, where the counts have been brought up to date.
  pub append-IsCounted :
      (urls : List ShortUrl)
      → ((u : ShortUrl) → (f u).id ≡ u.id)
      → IsCounted urls clicks
      → All (λ e. any (λ v. v.id == e.short_url_id) urls ≡ true) new
      → All
          (λ u. u.click_count ≡ count_where (λ e. e.short_url_id == u.id) (clicks ++ new))
          (map f urls)
      → IsCounted (map f urls) (clicks ++ new)
  append-IsCounted urls same c known counts = record {
    counts = counts;
    owned =
        All-mono (λ e. any (λ v. v.id == e.short_url_id) urls ≡ true)
          (λ e. any (λ v. v.id == e.short_url_id) (map f urls) ≡ true) (clicks ++ new)
          (λ e h. any-map e.short_url_id same urls ∙ h)
          (All-append (λ e. any (λ v. v.id == e.short_url_id) urls ≡ true) clicks new c.owned
            known);
  }
