-- ===== src/UrlService/Codes.antt =====
-- `_generate_unique_code` of app/services/url.py.
use fastapi_url_shortener.Base.{
  subst, ℕ, zero, suc, ◌+◌, ◌<◌, String, ◌≡◌, refl, ap, ◌∙◌, true, none, arith, ◌⊎◌, inl, inr,
  string_eq, Option-cases,
}
use fastapi_url_shortener.Core.Errors.{short_code_collision_error}
use fastapi_url_shortener.Core.Action.{Result, ok, err}
use fastapi_url_shortener.Postgres.{Postgres}
use fastapi_url_shortener.Repositories.ShortUrls.{is_some}
use fastapi_url_shortener.Repositories.ShortUrls.WellFormed.{IsWellFormed}
use fastapi_url_shortener.Repositories.ShortUrls.Lookup.{link_of, short_code_exists_lem}
use fastapi_url_shortener.UrlService.{generate_unique_code}

module _ ⦃pg : Postgres⦄ (db : pg.Db) (wf : IsWellFormed (pg.short_urls.rows db)) where
  abbrev pub IsFree : String → Type 0
  IsFree c = link_of c (pg.short_urls.rows db) ≡ none

  abbrev pub IsTaken : String → Type 0
  IsTaken c = is_some (link_of c (pg.short_urls.rows db)) ≡ true

  generate-free :
      (n i : ℕ) (candidate : ℕ → String)
      → IsFree (candidate i)
      → generate_unique_code (suc n) i candidate db ≡ (ok (candidate i), db)
  unfolding generate_unique_code
  generate-free n i candidate free = rw (short_code_exists_lem db wf (candidate i), free)

  generate-taken :
      (n i : ℕ) (candidate : ℕ → String)
      → IsTaken (candidate i)
      → generate_unique_code (suc n) i candidate db ≡ generate_unique_code n (suc i) candidate db
  unfolding generate_unique_code
  generate-taken n i candidate taken = rw (short_code_exists_lem db wf (candidate i), taken)

  -- The first free candidate, if one of the n candidates from the i-th on is free.
  abbrev pub Outcome : ℕ → ℕ → (ℕ → String) → Result String → Type 0
  Outcome n i candidate a =
      ((a ≡ err short_code_collision_error) × ((k : ℕ) → k < n → IsTaken (candidate (i + k))))
      ⊎ ((k : ℕ) × (k < n)
          × (a ≡ ok (candidate (i + k)))
          × IsFree (candidate (i + k))
          × ((j : ℕ) → j < k → IsTaken (candidate (i + j))))

  IsTaken-from :
      (n i : ℕ) (candidate : ℕ → String)
      → IsTaken (candidate i)
      → ((k : ℕ) → k < n → IsTaken (candidate (suc i + k)))
      → (k : ℕ) → k < suc n
      → IsTaken (candidate (i + k))
  IsTaken-from n i candidate first rest zero h =
      subst (λ m. IsTaken (candidate m)) (omega arith) first
  IsTaken-from n i candidate first rest (suc k) h =
      subst (λ m. IsTaken (candidate m)) (omega arith) (rest k (omega arith))

  -- One more candidate before the others, which is taken.
  Outcome-suc :
      (n i : ℕ) (candidate : ℕ → String) (a : Result String)
      → IsTaken (candidate i)
      → Outcome n (suc i) candidate a
      → Outcome (suc n) i candidate a
  Outcome-suc n i candidate a first (inl (failed, rest)) =
      inl (failed, IsTaken-from n i candidate first rest)
  Outcome-suc n i candidate a first (inr (k, below, found, free, before)) =
      let same : suc i + k ≡ i + suc k = omega arith in
      inr (
        suc k,
        omega arith,
        found ∙ ap (λ m. ok (candidate m)) same,
        subst (λ m. IsFree (candidate m)) same free,
        IsTaken-from k i candidate first before,
      )

  Outcome-free :
      (n i : ℕ) (candidate : ℕ → String)
      → IsFree (candidate i)
      → Outcome (suc n) i candidate (ok (candidate i))
  Outcome-free n i candidate free =
      let same : i ≡ i + 0 = omega arith in
      inr (
        0,
        omega arith,
        ap (λ m. ok (candidate m)) same,
        subst (λ m. IsFree (candidate m)) same free,
        λ j h. absurd (omega arith),
      )

  -- The retry loop ends within its number of attempts and leaves the database alone: it returns the
  -- first candidate that no link has as its code or alias, and raises ShortCodeCollisionError
  -- exactly when every candidate is taken.
  pub generate_unique_code_lem :
      (n i : ℕ) (candidate : ℕ → String)
      → Outcome n i candidate (generate_unique_code n i candidate db).0
        × ((generate_unique_code n i candidate db).1 ≡ db)
  unfolding generate_unique_code
  generate_unique_code_lem zero i candidate = (inl (refl, λ k h. absurd (omega arith)), refl)
  generate_unique_code_lem (suc n) i candidate =
      elim (Option-cases (link_of (candidate i) (pg.short_urls.rows db))) [
        | inl free ↦ rw (generate-free n i candidate free) (Outcome-free n i candidate free, refl)
        | inr (u, e) ↦
            let taken : IsTaken (candidate i) = rw e in
            let (outcome, same) = generate_unique_code_lem n (suc i) candidate in
            rw (generate-taken n i candidate taken) (
              Outcome-suc n i candidate (generate_unique_code n (suc i) candidate db).0 taken
                  outcome,
              same,
            )
      ]
