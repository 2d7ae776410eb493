-- ===== src/Repositories/ShortUrls/WellFormed.antt =====
-- The well-formed links: a code leads to one link at most, and an alias is the short code of its
-- link.
use fastapi_url_shortener.Base.{
  ◌≤◌, String, ◌≡◌, refl, ◌⊎◌, Bool, true, false, not, ◌&&◌, none, some, List, [], ◌∷◌, ◌++◌, arith,
  ◌==◌, nat_eq, string_eq, option_eq, eq_iff, any, select, update_where, count_where, All,
  All-append, All-select, All-update_where, count_where-append, count_where-update_where,
  count_where-select-le, any-count_where,
}
use fastapi_url_shortener.Models.{Uuid, User, ShortUrl, admits_short_url}
use fastapi_url_shortener.Repositories.ShortUrls.{has_code}

-- An alias, where there is one, is the short code too.
abbrev pub AliasIsCode : ShortUrl → Type 0
AliasIsCode u = (u.custom_alias ≡ none) ⊎ (u.custom_alias ≡ some u.short_code)

pub record IsWellFormed (urls : List ShortUrl) : Type 0 where
  pub unique_codes : (c : String) → count_where (has_code c) urls ≤ 1
  pub unique_ids : (i : Uuid) → count_where (λ u. u.id == i) urls ≤ 1
  pub aliases : All AliasIsCode urls

-- The code of a link whose alias is its code.
has_code_eq : (c : String) (u : ShortUrl) → AliasIsCode u → has_code c u ≡ (u.short_code == c)
unfolding has_code
has_code_eq c u alias = ground (arith, eq_iff u.short_code c)

count-has_code :
    (c : String) (urls : List ShortUrl)
    → All AliasIsCode urls
    → any (λ v. v.short_code == c) urls ≡ false
    → count_where (has_code c) urls ≡ 0
count-has_code c [] all free = refl
count-has_code c (u ∷ urls) all free =
    ground (arith, has_code_eq c u all.0, count-has_code c urls all.1)

left : (a b : Bool) → (a && b) ≡ true → a ≡ true
left a b h = ground arith

both_not : (a b : Bool) → (not a && not b) ≡ true → (a ≡ false) × (b ≡ false)
both_not a b h = ground arith

module _ (users : List User) (urls : List ShortUrl) (u : ShortUrl) where
  -- What the unique constraints say of a row that goes in.
  admitted_new :
      admits_short_url users urls u ≡ true
      → (any (λ v. v.id == u.id) urls ≡ false)
        × (any (λ v. v.short_code == u.short_code) urls ≡ false)
  unfolding admits_short_url
  admitted_new h = both_not _ _ (left _ _ (left _ _ (left _ _ (left _ _ (left _ _ h)))))

  pub insert-IsWellFormed :
      admits_short_url users urls u ≡ true
      → AliasIsCode u
      → IsWellFormed urls
      → IsWellFormed (urls ++ u ∷ [])
  insert-IsWellFormed h alias wf =
      let (new_id, new_code) = admitted_new h in
      record {
        unique_codes = λ c. grind (
          arith,
          count_where-append (has_code c) urls (u ∷ []),
          wf.unique_codes c,
          has_code_eq c u alias,
          eq_iff u.short_code c,
          count-has_code u.short_code urls wf.aliases new_code,
        );
        unique_ids = λ i. grind (
          arith,
          count_where-append (λ v. v.id == i) urls (u ∷ []),
          wf.unique_ids i,
          any-count_where (λ v. v.id == u.id) urls new_id,
        );
        aliases = All-append AliasIsCode urls (u ∷ []) wf.aliases (alias, tt);
      }

module _ (urls : List ShortUrl) (wf : IsWellFormed urls) where
  -- A change of a row that keeps its id, its code and its alias.
  pub update-IsWellFormed :
      (q : ShortUrl → Bool) (f : ShortUrl → ShortUrl)
      → ((u : ShortUrl) → (f u).id ≡ u.id)
      → ((u : ShortUrl) → (f u).short_code ≡ u.short_code)
      → ((u : ShortUrl) → (f u).custom_alias ≡ u.custom_alias)
      → IsWellFormed (update_where q f urls)
  unfolding has_code
  update-IsWellFormed q f same_id same_code same_alias = record {
    unique_codes = λ c. omega (
      arith,
      count_where-update_where (has_code c) q f (λ u. rw (same_code u, same_alias u)) urls,
      wf.unique_codes c,
    );
    unique_ids = λ i. omega (
      arith,
      count_where-update_where (λ u. u.id == i) q f (λ u. rw (same_id u)) urls,
      wf.unique_ids i,
    );
    aliases =
        All-update_where AliasIsCode q f (λ u h. rw (same_code u, same_alias u) h) urls wf.aliases;
  }

  pub delete-IsWellFormed : (q : ShortUrl → Bool) → IsWellFormed (select q urls)
  delete-IsWellFormed q = record {
    unique_codes = λ c. omega (arith, count_where-select-le (has_code c) q urls, wf.unique_codes c);
    unique_ids = λ i. omega (arith, count_where-select-le (λ u. u.id == i) q urls, wf.unique_ids i);
    aliases = All-select AliasIsCode q urls wf.aliases;
  }
