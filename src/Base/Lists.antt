-- ===== src/Base/Lists.antt =====
-- Lists measured by native numbers, and the list functions that SQL and Redis commands read as.
use Prim.Native.Nat.{ℕ, zero, suc, ◌+◌, ◌-◌, ◌≤◌}
use mathlib.Core.Path.{◌≡◌, refl, ap}
use mathlib.Core.Bool.{Bool, true, false, ◌||◌}
use mathlib.Core.List.{List, [], ◌∷◌, ◌++◌}
use native.Mathlib.Omega.{arith}
use fastapi_url_shortener.Base.Tests.{if◌then◌else◌, Comparable, ◌==◌}

module _ {ℓ} {A : Type ℓ} where
  abbrev pub length : List A → ℕ
  length [] = 0
  length (x ∷ xs) = suc (length xs)

  abbrev pub take : ℕ → List A → List A
  take zero xs = []
  take (suc n) [] = []
  take (suc n) (x ∷ xs) = x ∷ take n xs

  abbrev pub drop : ℕ → List A → List A
  drop zero xs = xs
  drop (suc n) [] = []
  drop (suc n) (x ∷ xs) = drop n xs

  -- The rows that a WHERE clause keeps.
  abbrev pub select : (A → Bool) → List A → List A
  select p [] = []
  select p (x ∷ xs) = let rest = select p xs in if p x then x ∷ rest else rest

  -- The rows that a WHERE clause changes are changed in place.
  abbrev pub update_where : (A → Bool) → (A → A) → List A → List A
  update_where p f [] = []
  update_where p f (x ∷ xs) = (if p x then f x else x) ∷ update_where p f xs

  -- How many elements pass a test.
  abbrev pub count_where : (A → Bool) → List A → ℕ
  count_where p [] = 0
  count_where p (x ∷ xs) = (if p x then 1 else 0) + count_where p xs

  -- A predicate holds of every element.
  abbrev pub All {κ} : (A → Type κ) → List A → Type κ
  All P [] = Unit
  All P (x ∷ xs) = P x × All P xs

  abbrev pub any : (A → Bool) → List A → Bool
  any p [] = false
  any p (x ∷ xs) = p x || any p xs

  pub length-append : (xs ys : List A) → length (xs ++ ys) ≡ length xs + length ys
  length-append [] ys = omega arith
  length-append (x ∷ xs) ys = omega (arith, length-append xs ys)

  pub take-append-drop : (n : ℕ) (xs : List A) → take n xs ++ drop n xs ≡ xs
  take-append-drop zero xs = refl
  take-append-drop (suc n) [] = refl
  take-append-drop (suc n) (x ∷ xs) = ap (◌∷◌ x) (take-append-drop n xs)

  pub length-take-le : (n : ℕ) (xs : List A) → length (take n xs) ≤ n
  length-take-le zero xs = omega arith
  length-take-le (suc n) [] = omega arith
  length-take-le (suc n) (x ∷ xs) = omega (arith, length-take-le n xs)

  pub length-drop : (n : ℕ) (xs : List A) → length (drop n xs) ≡ length xs - n
  length-drop zero xs = omega arith
  length-drop (suc n) [] = omega arith
  length-drop (suc n) (x ∷ xs) = omega (arith, length-drop n xs)

  pub eq-nil_of_length : (xs : List A) → length xs ≡ 0 → xs ≡ []
  eq-nil_of_length [] h = refl
  eq-nil_of_length (x ∷ xs) h = absurd (omega arith)

  pub count_where-append :
      (p : A → Bool) (xs ys : List A)
      → count_where p (xs ++ ys) ≡ count_where p xs + count_where p ys
  count_where-append p [] ys = omega arith
  count_where-append p (x ∷ xs) ys = omega (arith, count_where-append p xs ys)

  pub length-select : (p : A → Bool) (xs : List A) → length (select p xs) ≡ count_where p xs
  length-select p [] = refl
  length-select p (x ∷ xs) = ground (arith, length-select p xs)

  pub select-append :
      (p : A → Bool) (xs ys : List A) → select p (xs ++ ys) ≡ select p xs ++ select p ys
  select-append p [] ys = refl
  select-append p (x ∷ xs) ys = ground (arith, select-append p xs ys)

module _ {ℓ} {A : Type ℓ} ⦃e : Comparable A⦄ where
  abbrev pub contains : List A → A → Bool
  contains [] a = false
  contains (x ∷ xs) a = x == a || contains xs a

module _ {ℓ κ} {A : Type ℓ} where
  pub All-append : (P : A → Type κ) (xs ys : List A) → All P xs → All P ys → All P (xs ++ ys)
  All-append P [] ys hx hy = hy
  All-append P (x ∷ xs) ys hx hy = (hx.0, All-append P xs ys hx.1 hy)

  pub All-select : (P : A → Type κ) (p : A → Bool) (xs : List A) → All P xs → All P (select p xs)
  All-select P p [] h = tt
  All-select P p (x ∷ xs) h =
      elim (p x) as (λ b. All P (if b then x ∷ select p xs else select p xs)) [
        | true ↦ (h.0, All-select P p xs h.1)
        | false ↦ All-select P p xs h.1
      ]

module _ {ℓ} {A : Type ℓ} (p q : A → Bool) where
  pub count_where_mono :
      ((x : A) → p x ≡ true → q x ≡ true) → (xs : List A) → count_where p xs ≤ count_where q xs
  count_where_mono h [] = omega arith
  count_where_mono h (x ∷ xs) = ground (arith, h x, count_where_mono h xs)

  pub count_where_ext : ((x : A) → p x ≡ q x) → (xs : List A) → count_where p xs ≡ count_where q xs
  count_where_ext h [] = refl
  count_where_ext h (x ∷ xs) = ground (arith, h x, count_where_ext h xs)

pub count_where_all {ℓ} : {A : Type ℓ} (xs : List A) → count_where (λ _. true) xs ≡ length xs
count_where_all [] = refl
count_where_all (x ∷ xs) = omega (arith, count_where_all xs)

module _ {ℓ} {A : Type ℓ} where
  -- A change that a test does not see leaves its count.
  pub count_where-update_where :
      (p q : A → Bool) (f : A → A)
      → ((x : A) → p (f x) ≡ p x)
      → (xs : List A) → count_where p (update_where q f xs) ≡ count_where p xs
  count_where-update_where p q f same [] = refl
  count_where-update_where p q f same (x ∷ xs) =
      ground (arith, same x, count_where-update_where p q f same xs)

  pub count_where-select-le :
      (p q : A → Bool) (xs : List A) → count_where p (select q xs) ≤ count_where p xs
  count_where-select-le p q [] = omega arith
  count_where-select-le p q (x ∷ xs) = ground (arith, count_where-select-le p q xs)

  pub any-count_where : (p : A → Bool) (xs : List A) → any p xs ≡ false → count_where p xs ≡ 0
  any-count_where p [] h = refl
  any-count_where p (x ∷ xs) h = ground (arith, any-count_where p xs)

module _ {ℓ κ} {A : Type ℓ} (P : A → Type κ) (q : A → Bool) (f : A → A) where
  pub All-update_where :
      ((x : A) → P x → P (f x)) → (xs : List A) → All P xs → All P (update_where q f xs)
  All-update_where keep [] h = tt
  All-update_where keep (x ∷ xs) h = (
    elim (q x) as (λ b. P (if b then f x else x)) [ true ↦ keep x h.0 | false ↦ h.0 ],
    All-update_where keep xs h.1,
  )
