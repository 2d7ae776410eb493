-- ===== src/Repositories/Query.antt =====
-- The parts of a query that work on the rows that WHERE has kept, and the lemmas about them.
use fastapi_url_shortener.Base.{
  subst, ◌++◌, ℕ, ◌≤◌, ◌≡◌, refl, Bool, true, false, Option, none, some, List, [], ◌∷◌, arith, ltb,
  if◌then◌else◌, take, drop, select, count_where, update_where, not, All, Bool-cases, inl, inr,
}
use fastapi_url_shortener.Core.Errors.{multiple_results_found}
use fastapi_url_shortener.Core.Action.{Result, ok, err}

module _ {A : Type 0} where
  -- `result.scalar_one_or_none()`
  unfoldable pub scalar_one_or_none : List A → Result (Option A)
  scalar_one_or_none [] = ok none
  scalar_one_or_none (x ∷ []) = ok (some x)
  scalar_one_or_none (x ∷ y ∷ xs) = err multiple_results_found

  -- `.order_by(key.desc())`
  unfoldable pub insert_desc : (A → ℕ) → A → List A → List A
  insert_desc key x [] = x ∷ []
  insert_desc key x (y ∷ ys) =
      let rest = insert_desc key x ys in if ltb (key y) (key x) then x ∷ y ∷ ys else y ∷ rest

  unfoldable pub order_by_desc : (A → ℕ) → List A → List A
  unfolding insert_desc
  order_by_desc key [] = []
  order_by_desc key (x ∷ xs) = insert_desc key x (order_by_desc key xs)

  -- `.order_by(key)`
  unfoldable pub insert_asc : (A → ℕ) → A → List A → List A
  insert_asc key x [] = x ∷ []
  insert_asc key x (y ∷ ys) =
      let rest = insert_asc key x ys in if ltb (key x) (key y) then x ∷ y ∷ ys else y ∷ rest

  unfoldable pub order_by : (A → ℕ) → List A → List A
  unfolding insert_asc
  order_by key [] = []
  order_by key (x ∷ xs) = insert_asc key x (order_by key xs)

  -- `.offset(n).limit(m)`
  abbrev pub offset_limit : ℕ → ℕ → List A → List A
  offset_limit n m xs = take m (drop n xs)

  -- The first row that passes.
  abbrev pub first_where : (A → Bool) → List A → Option A
  first_where p [] = none
  first_where p (x ∷ xs) = let rest = first_where p xs in if p x then some x else rest

  -- No row passes.
  pub select_none : (p : A → Bool) (xs : List A) → count_where p xs ≡ 0 → select p xs ≡ []
  select_none p [] h = refl
  select_none p (x ∷ xs) h = ground (arith, select_none p xs)

  -- Where at most one row passes, the query returns it.
  pub scalar_one_or_none-select :
      (p : A → Bool) (xs : List A)
      → count_where p xs ≤ 1
      → scalar_one_or_none (select p xs) ≡ ok (first_where p xs)
  unfolding scalar_one_or_none
  scalar_one_or_none-select p [] h = refl
  scalar_one_or_none-select p (x ∷ xs) h =
      ground (arith, select_none p xs, scalar_one_or_none-select p xs)

  -- The first row that passes does pass, and is there when some row passes.
  pub first_where-passes :
      (p : A → Bool) (xs : List A) {x : A} → first_where p xs ≡ some x → p x ≡ true
  first_where-passes p [] h = cc
  first_where-passes p (y ∷ xs) {x} h = ground (arith, first_where-passes p xs {x = x})

  pub first_where-none :
      (p : A → Bool) (xs : List A) → first_where p xs ≡ none → count_where p xs ≡ 0
  first_where-none p [] h = refl
  first_where-none p (y ∷ xs) h = ground (arith, first_where-none p xs)

  pub first_where_of_none :
      (p : A → Bool) (xs : List A) → count_where p xs ≡ 0 → first_where p xs ≡ none
  first_where_of_none p [] h = refl
  first_where_of_none p (y ∷ xs) h = ground (arith, first_where_of_none p xs)

  -- A row at the end is the first that passes only if no other does.
  pub first_where-append_none :
      (p : A → Bool) (xs : List A) (y : A)
      → first_where p xs ≡ none
      → first_where p (xs ++ y ∷ []) ≡ (if p y then some y else none)
  first_where-append_none p [] y h = refl
  first_where-append_none p (x ∷ xs) y h = ground (arith, first_where-append_none p xs y)

  pub first_where-append_some :
      (p : A → Bool) (xs : List A) (y : A) {x : A}
      → first_where p xs ≡ some x
      → first_where p (xs ++ y ∷ []) ≡ some x
  first_where-append_some p [] y h = cc
  first_where-append_some p (z ∷ xs) y {x} h =
      ground (arith, first_where-append_some p xs y {x = x})

  -- The first row that passes stays the first if the change of other rows leaves the test alone, and
  -- if other rows are deleted.
  pub first_where-update_where :
      (h q : A → Bool) (f : A → A) (xs : List A) {x : A}
      → ((y : A) → h (f y) ≡ h y)
      → first_where h xs ≡ some x
      → q x ≡ false
      → first_where h (update_where q f xs) ≡ some x
  first_where-update_where h q f [] same e other = cc
  first_where-update_where h q f (y ∷ xs) {x} same e other =
      ground (arith, same y, first_where-update_where h q f xs {x = x} same)

  pub first_where-select :
      (h q : A → Bool) (xs : List A) {x : A}
      → first_where h xs ≡ some x
      → q x ≡ false
      → first_where h (select (λ y. not (q y)) xs) ≡ some x
  first_where-select h q [] e other = cc
  first_where-select h q (y ∷ xs) {x} e other = ground (arith, first_where-select h q xs {x = x})

  -- A row that some query finds counts for every test that it passes.
  pub first_where-count :
      (p h : A → Bool) (xs : List A) {x : A}
      → first_where h xs ≡ some x
      → p x ≡ true
      → 1 ≤ count_where p xs
  first_where-count p h [] e t = cc
  first_where-count p h (y ∷ xs) {x} e t = ground (arith, first_where-count p h xs {x = x})

  -- Two queries that find rows with the same key find the same row.
  pub first_where_unique :
      (p h : A → Bool) (xs : List A) {x u : A}
      → count_where p xs ≤ 1
      → first_where p xs ≡ some u
      → first_where h xs ≡ some x
      → p x ≡ true
      → x ≡ u
  first_where_unique p h [] one e found t = cc
  first_where_unique p h (y ∷ xs) {x} {u} one e found t =
      ground (arith, first_where_unique p h xs {x = x} {u = u}, first_where-count p h xs {x = x})

  -- What holds of every row holds of the one that is found.
  pub All-first_where {κ} :
      (P : A → Type κ) (p : A → Bool) (xs : List A) {x : A}
      → All P xs
      → first_where p xs ≡ some x
      → P x
  All-first_where P p [] all e = cc
  All-first_where P p (y ∷ xs) {x} all e = elim (Bool-cases (p y)) [
    | inl here ↦ let same : y ≡ x = ground arith in subst P same all.0
    | inr there ↦ All-first_where P p xs {x = x} all.1 (rw there at e)
  ]
