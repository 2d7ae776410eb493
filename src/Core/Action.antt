-- ===== src/Core/Action.antt =====
-- A method of the program: it reads and changes a state, and returns or raises. What was written
-- before a raise stays written, so the state comes back beside the error too.
use fastapi_url_shortener.Base.{
  ◌≡◌, refl, ◌⊎◌, inl, inr, Bool, Option, none, some, List, [], ◌∷◌, if◌then◌else◌,
}
use fastapi_url_shortener.Core.Errors.{Error}

pub data Result (A : Type 0) : Type 0 where
  ok : A → Result A
  err : Error → Result A

abbrev pub Action : Type 0 → Type 0 → Type 0
Action S A = S → Result A × S

module _ {S A : Type 0} where
  abbrev pub pure : A → Action S A
  pure a s = (ok a, s)

  abbrev pub raise : Error → Action S A
  raise e s = (err e, s)

  abbrev pub lift : Result A → Action S A
  lift r s = (r, s)

  -- A read that may raise.
  abbrev pub reads : (S → Result A) → Action S A
  reads f s = (f s, s)

  abbrev pub or_raise : Option A → Error → Action S A
  or_raise none e = raise e
  or_raise (some a) e = pure a

abbrev pub modify : {S : Type 0} → (S → S) → Action S Unit
modify f s = (ok tt, f s)

abbrev pub raise_if : {S : Type 0} → Bool → Error → Action S Unit
raise_if b e s = (if b then err e else ok tt, s)

-- A write that the store may refuse.
abbrev pub attempt : {S : Type 0} → (S → Option S) → Error → Action S Unit
attempt f e s = elim (f s) [ none ↦ (err e, s) | some s' ↦ (ok tt, s') ]

module _ {S A B : Type 0} where
  abbrev pub resume : Result A × S → (A → Action S B) → Result B × S
  resume (ok a, s) f = f a s
  resume (err e, s) f = (err e, s)

  infixl 5 ◌>>=◌ ◌>>◌
  abbrev pub ◌>>=◌ : Action S A → (A → Action S B) → Action S B
  ◌>>=◌ m f s = resume (m s) f

  abbrev pub ◌>>◌ : Action S A → Action S B → Action S B
  m >> n = m >>= λ _. n

-- `except Exception` around an action.
abbrev pub recover : {S A : Type 0} → Result A × S → (Error → Action S A) → Result A × S
recover (ok a, s) h = (ok a, s)
recover (err e, s) h = h e s

abbrev pub try_except : {S A : Type 0} → Action S A → (Error → Action S A) → Action S A
try_except m h s = recover (m s) h

-- `for x in xs: body(x)`
abbrev pub for_each : {S A : Type 0} → List A → (A → Action S Unit) → Action S Unit
for_each [] body = pure tt
for_each (x ∷ xs) body = body x >> for_each xs body

-- To split on a result and keep the equation.
pub Result-cases :
    {A : Type 0} (a : Result A) → ((e : Error) × (a ≡ err e)) ⊎ ((x : A) × (a ≡ ok x))
Result-cases (ok x) = inr (x, refl)
Result-cases (err e) = inl (e, refl)
