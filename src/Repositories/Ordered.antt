-- ===== src/Repositories/Ordered.antt =====
-- What ORDER BY and LIMIT leave of the rows.
use fastapi_url_shortener.Base.{
  ℕ, zero, suc, ◌+◌, ◌≤◌, ◌≡◌, ◌≢◌, sym, ap, ◌∙◌, refl, Bool, List, [], ◌∷◌, map, arith, ltb,
  if◌then◌else◌, length, take, drop, count_where, All, inl, inr, Bool-cases,
}
use fastapi_url_shortener.Repositories.Query.{insert_desc, order_by_desc, insert_asc, order_by}

module _ {A : Type 0} where
  abbrev pub total_of : (A → ℕ) → List A → ℕ
  total_of key [] = 0
  total_of key (x ∷ xs) = key x + total_of key xs

  -- No row after a row has a greater key.
  abbrev pub IsDescending : (A → ℕ) → List A → Type 0
  IsDescending key [] = Unit
  IsDescending key (x ∷ xs) = All (λ y. key y ≤ key x) xs × IsDescending key xs

  pub total_of-take-le :
      (key : A → ℕ) (n : ℕ) (xs : List A) → total_of key (take n xs) ≤ total_of key xs
  total_of-take-le key zero xs = omega arith
  total_of-take-le key (suc n) [] = omega arith
  total_of-take-le key (suc n) (x ∷ xs) = omega (arith, total_of-take-le key n xs)

  pub All-take : (P : A → Type 0) (n : ℕ) (xs : List A) → All P xs → All P (take n xs)
  All-take P zero xs h = tt
  All-take P (suc n) [] h = tt
  All-take P (suc n) (x ∷ xs) h = (h.0, All-take P n xs h.1)

  pub All-drop : (P : A → Type 0) (n : ℕ) (xs : List A) → All P xs → All P (drop n xs)
  All-drop P zero xs h = h
  All-drop P (suc n) [] h = tt
  All-drop P (suc n) (x ∷ xs) h = All-drop P n xs h.1

  pub All-le-total :
      (key : A → ℕ) (n : ℕ) (xs : List A) → total_of key xs ≤ n → All (λ x. key x ≤ n) xs
  All-le-total key n [] h = tt
  All-le-total key n (x ∷ xs) h = (omega (arith, h), All-le-total key n xs (omega (arith, h)))

  pub IsDescending-take :
      (key : A → ℕ) (n : ℕ) (xs : List A) → IsDescending key xs → IsDescending key (take n xs)
  IsDescending-take key zero xs h = tt
  IsDescending-take key (suc n) [] h = tt
  IsDescending-take key (suc n) (x ∷ xs) h =
      (All-take (λ y. key y ≤ key x) n xs h.0, IsDescending-take key n xs h.1)

  pub IsDescending-drop :
      (key : A → ℕ) (n : ℕ) (xs : List A) → IsDescending key xs → IsDescending key (drop n xs)
  IsDescending-drop key zero xs h = h
  IsDescending-drop key (suc n) [] h = tt
  IsDescending-drop key (suc n) (x ∷ xs) h = IsDescending-drop key n xs h.1

  module _ (key : A → ℕ) where
    total_of-insert :
        (f : A → ℕ) (x : A) (xs : List A) → total_of f (insert_desc key x xs) ≡ f x + total_of f xs
    unfolding insert_desc
    total_of-insert f x [] = refl
    total_of-insert f x (y ∷ ys) = ground (arith, total_of-insert f x ys)

    pub total_of-order_by_desc :
        (f : A → ℕ) (xs : List A) → total_of f (order_by_desc key xs) ≡ total_of f xs
    unfolding order_by_desc
    total_of-order_by_desc f [] = refl
    total_of-order_by_desc f (x ∷ xs) =
        omega (arith, total_of-insert f x (order_by_desc key xs), total_of-order_by_desc f xs)

    length-insert : (x : A) (xs : List A) → length (insert_desc key x xs) ≡ suc (length xs)
    unfolding insert_desc
    length-insert x [] = refl
    length-insert x (y ∷ ys) = ground (arith, length-insert x ys)

    pub length-order_by_desc : (xs : List A) → length (order_by_desc key xs) ≡ length xs
    unfolding order_by_desc
    length-order_by_desc [] = refl
    length-order_by_desc (x ∷ xs) =
        omega (arith, length-insert x (order_by_desc key xs), length-order_by_desc xs)

    count_where-insert :
        (p : A → Bool) (x : A) (xs : List A)
        → count_where p (insert_desc key x xs) ≡ (if p x then 1 else 0) + count_where p xs
    unfolding insert_desc
    count_where-insert p x [] = refl
    count_where-insert p x (y ∷ ys) = ground (arith, count_where-insert p x ys)

    pub count_where-order_by_desc :
        (p : A → Bool) (xs : List A) → count_where p (order_by_desc key xs) ≡ count_where p xs
    unfolding order_by_desc
    count_where-order_by_desc p [] = refl
    count_where-order_by_desc p (x ∷ xs) =
        omega (arith, count_where-insert p x (order_by_desc key xs), count_where-order_by_desc p xs)

    All-insert :
        (P : A → Type 0) (x : A) (xs : List A) → P x → All P xs → All P (insert_desc key x xs)
    unfolding insert_desc
    All-insert P x [] hx h = (hx, tt)
    All-insert P x (y ∷ ys) hx h = elim (Bool-cases (ltb (key y) (key x))) [
      | inl before ↦ rw before (hx, h)
      | inr after ↦ rw after (h.0, All-insert P x ys hx h.1)
    ]

    pub All-order_by_desc : (P : A → Type 0) (xs : List A) → All P xs → All P (order_by_desc key xs)
    unfolding order_by_desc
    All-order_by_desc P [] h = tt
    All-order_by_desc P (x ∷ xs) h =
        All-insert P x (order_by_desc key xs) h.0 (All-order_by_desc P xs h.1)

    All-le : (m n : ℕ) (xs : List A) → m ≤ n → All (λ y. key y ≤ m) xs → All (λ y. key y ≤ n) xs
    All-le m n [] h a = tt
    All-le m n (x ∷ xs) h a = (omega (arith, h, a.0), All-le m n xs h a.1)

    insert-IsDescending :
        (x : A) (xs : List A) → IsDescending key xs → IsDescending key (insert_desc key x xs)
    unfolding insert_desc
    insert-IsDescending x [] h = (tt, tt)
    insert-IsDescending x (y ∷ ys) h = elim (Bool-cases (ltb (key y) (key x))) [
      | inl before ↦ rw before ((ground arith, All-le (key y) (key x) ys (ground arith) h.0), h)
      | inr after ↦
          rw after
            (All-insert (λ z. key z ≤ key y) x ys (ground arith) h.0, insert-IsDescending x ys h.1)
    ]

    pub order_by_desc-IsDescending : (xs : List A) → IsDescending key (order_by_desc key xs)
    unfolding order_by_desc
    order_by_desc-IsDescending [] = tt
    order_by_desc-IsDescending (x ∷ xs) =
        insert-IsDescending x (order_by_desc key xs) (order_by_desc-IsDescending xs)

    total_of-insert_asc :
        (f : A → ℕ) (x : A) (xs : List A) → total_of f (insert_asc key x xs) ≡ f x + total_of f xs
    unfolding insert_asc
    total_of-insert_asc f x [] = refl
    total_of-insert_asc f x (y ∷ ys) = ground (arith, total_of-insert_asc f x ys)

    pub total_of-order_by : (f : A → ℕ) (xs : List A) → total_of f (order_by key xs) ≡ total_of f xs
    unfolding order_by
    total_of-order_by f [] = refl
    total_of-order_by f (x ∷ xs) =
        omega (arith, total_of-insert_asc f x (order_by key xs), total_of-order_by f xs)

    All-insert_asc :
        (P : A → Type 0) (x : A) (xs : List A) → P x → All P xs → All P (insert_asc key x xs)
    unfolding insert_asc
    All-insert_asc P x [] hx h = (hx, tt)
    All-insert_asc P x (y ∷ ys) hx h = elim (Bool-cases (ltb (key x) (key y))) [
      | inl before ↦ rw before (hx, h)
      | inr after ↦ rw after (h.0, All-insert_asc P x ys hx h.1)
    ]

    pub All-order_by : (P : A → Type 0) (xs : List A) → All P xs → All P (order_by key xs)
    unfolding order_by
    All-order_by P [] h = tt
    All-order_by P (x ∷ xs) h = All-insert_asc P x (order_by key xs) h.0 (All-order_by P xs h.1)

    length-insert_asc : (x : A) (xs : List A) → length (insert_asc key x xs) ≡ suc (length xs)
    unfolding insert_asc
    length-insert_asc x [] = refl
    length-insert_asc x (y ∷ ys) = ground (arith, length-insert_asc x ys)

    pub length-order_by : (xs : List A) → length (order_by key xs) ≡ length xs
    unfolding order_by
    length-order_by [] = refl
    length-order_by (x ∷ xs) =
        omega (arith, length-insert_asc x (order_by key xs), length-order_by xs)

  -- No two rows have the same key.
  abbrev pub AreApart : (A → ℕ) → List A → Type 0
  AreApart key [] = Unit
  AreApart key (x ∷ xs) = All (λ y. key y ≢ key x) xs × AreApart key xs

  module _ (key ties : A → ℕ) where
    -- Rows with different keys go in in either order.
    insert_desc_comm :
        (x y : A) (zs : List A)
        → key y ≢ key x
        → insert_desc key x (insert_desc key y zs) ≡ insert_desc key y (insert_desc key x zs)
    unfolding insert_desc
    insert_desc_comm x y [] apart = ground (arith, apart)
    insert_desc_comm x y (z ∷ zs) apart = ground (arith, apart, insert_desc_comm x y zs apart)

    order_by_desc-insert_asc :
        (x : A) (ys : List A)
        → All (λ y. key y ≢ key x) ys
        → order_by_desc key (insert_asc ties x ys) ≡ insert_desc key x (order_by_desc key ys)
    unfolding order_by_desc insert_asc
    order_by_desc-insert_asc x [] apart = refl
    order_by_desc-insert_asc x (y ∷ ys) apart = elim (Bool-cases (ltb (ties x) (ties y))) [
      | inl first ↦ rw first refl
      | inr later ↦ rw later (
          ap (insert_desc key y) (order_by_desc-insert_asc x ys apart.1)
          ∙ sym (insert_desc_comm x y (order_by_desc key ys) apart.0))
    ]

    -- Where no two rows have the same key, no other order decides.
    pub order_by_desc-order_by :
        (xs : List A)
        → AreApart key xs
        → order_by_desc key (order_by ties xs) ≡ order_by_desc key xs
    unfolding order_by_desc order_by
    order_by_desc-order_by [] apart = refl
    order_by_desc-order_by (x ∷ xs) apart =
        order_by_desc-insert_asc x (order_by ties xs)
          (All-order_by ties (λ y. key y ≢ key x) xs apart.0)
        ∙ ap (insert_desc key x) (order_by_desc-order_by xs apart.1)

module _ {A B : Type 0} (f : A → B) where
  pub All-map : (P : B → Type 0) (xs : List A) → All (λ x. P (f x)) xs → All P (map f xs)
  All-map P [] h = tt
  All-map P (x ∷ xs) h = (h.0, All-map P xs h.1)

  pub IsDescending-map :
      (key : B → ℕ) (xs : List A) → IsDescending (λ x. key (f x)) xs → IsDescending key (map f xs)
  IsDescending-map key [] h = tt
  IsDescending-map key (x ∷ xs) h =
      (All-map (λ y. key y ≤ key (f x)) xs h.0, IsDescending-map key xs h.1)

  pub length-map : (xs : List A) → length (map f xs) ≡ length xs
  length-map [] = refl
  length-map (x ∷ xs) = omega (arith, length-map xs)

  pub total_of-map :
      (key : B → ℕ) (xs : List A) → total_of key (map f xs) ≡ total_of (λ x. key (f x)) xs
  total_of-map key [] = refl
  total_of-map key (x ∷ xs) = omega (arith, total_of-map key xs)
