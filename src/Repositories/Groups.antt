-- ===== src/Repositories/Groups.antt =====
-- What GROUP BY, COUNT and COUNT(DISTINCT) of app/repositories/click_event.py leave of the rows.
use fastapi_url_shortener.Base.{
  ℕ, ◌+◌, ◌≤◌, String, ◌≡◌, refl, false, Option, none, some, List, [], ◌∷◌, map, arith, length,
  select, contains, count_where, Comparable, ◌==◌, string_eq, inl, inr, Bool-cases,
}
use fastapi_url_shortener.Repositories.ClickEvents.{distinct, not_null, group_counts}
use fastapi_url_shortener.Repositories.Ordered.{
  total_of, total_of-order_by_desc, total_of-map, length-map,
}

module _ {A : Type 0} ⦃e : Comparable A⦄ where
  ==_comm : (x y : A) → (x == y) ≡ (y == x)
  ==_comm x y = grind (arith, e.equals_iff x y, e.equals_iff y x)

  contains-count :
      (y : A) (xs : List A) → contains xs y ≡ false → count_where (λ l. y == l) (distinct xs) ≡ 0
  unfolding distinct
  contains-count y [] h = refl
  contains-count y (x ∷ xs) h = ground (arith, ==_comm x y, contains-count y xs)

  distinct-count : (y : A) (xs : List A) → count_where (λ l. y == l) (distinct xs) ≤ 1
  unfolding distinct
  distinct-count y [] = omega arith
  distinct-count y (x ∷ xs) = elim (Bool-cases (contains xs x)) [
    | inl again ↦ rw again (distinct-count y xs)
    | inr new ↦ rw new (elim (Bool-cases (y == x)) [
      | inl same ↦
          let no_other : count_where (λ l. y == l) (distinct xs) ≡ 0 =
            rw ((e.equals_iff y x).0 same) (contains-count x xs new) in
          rw same (omega (arith, no_other))
      | inr other ↦ rw other (omega (arith, distinct-count y xs))
    ])
  ]

  -- The rows of each group, added up over any groups.
  abbrev size_in : List A → A → ℕ
  size_in ys l = length (select (λ m. m == l) ys)

  sizes-cons :
      (y : A) (ys groups : List A)
      → total_of (size_in (y ∷ ys)) groups
        ≡ count_where (λ l. y == l) groups + total_of (size_in ys) groups
  sizes-cons y ys [] = refl
  sizes-cons y ys (l ∷ groups) = ground (arith, sizes-cons y ys groups)

  sizes-nil : (groups : List A) → total_of (size_in []) groups ≡ 0
  sizes-nil [] = refl
  sizes-nil (l ∷ groups) = omega (arith, sizes-nil groups)

  pub sizes-le : (xs ys : List A) → total_of (size_in ys) (distinct xs) ≤ length ys
  sizes-le xs [] = omega (arith, sizes-nil (distinct xs))
  sizes-le xs (y ∷ ys) =
      omega (arith, sizes-cons y ys (distinct xs), distinct-count y xs, sizes-le xs ys)

  pub length-distinct-le : (xs : List A) → length (distinct xs) ≤ length xs
  unfolding distinct
  length-distinct-le [] = omega arith
  length-distinct-le (x ∷ xs) = ground (arith, length-distinct-le xs)

pub length-not_null-le : (xs : List (Option String)) → length (not_null xs) ≤ length xs
unfolding not_null
length-not_null-le [] = omega arith
length-not_null-le (none ∷ xs) = omega (arith, length-not_null-le xs)
length-not_null-le (some x ∷ xs) = omega (arith, length-not_null-le xs)

-- The counts of the groups add up to the number of labels at most.
pub group_counts-le :
    (labels : List String) → total_of (λ g. g.1) (group_counts labels) ≤ length labels
unfolding group_counts
group_counts-le labels = omega (
  arith,
  total_of-order_by_desc {A = String × ℕ} (λ g. g.1) (λ g. g.1)
      (map (λ l. (l, length (select (λ m. m == l) labels))) (distinct labels)),
  total_of-map {A = String} {B = String × ℕ} (λ l. (l, length (select (λ m. m == l) labels)))
      (λ g. g.1) (distinct labels),
  sizes-le labels labels,
)

module _ {A B : Type 0} ⦃e : Comparable B⦄ (f : A → B) (rows : List A) where
  length-select-map :
      (b : B) (xs : List A)
      → length (select (λ x. f x == b) xs) ≡ length (select (λ m. m == b) (map f xs))
  length-select-map b [] = refl
  length-select-map b (x ∷ xs) = ground (arith, length-select-map b xs)

  -- The rows with each value of a column, added up over any values.
  rows-sizes :
      (groups : List B)
      → total_of (λ b. length (select (λ x. f x == b) rows)) groups
        ≡ total_of (λ b. length (select (λ m. m == b) (map f rows))) groups
  rows-sizes [] = refl
  rows-sizes (b ∷ groups) = omega (arith, length-select-map b rows, rows-sizes groups)

  pub grouped-le :
      total_of (λ b. length (select (λ x. f x == b) rows)) (distinct (map f rows)) ≤ length rows
  grouped-le = omega (
    arith,
    rows-sizes (distinct (map f rows)),
    sizes-le (map f rows) (map f rows),
    length-map f rows,
  )
