-- ===== src/RateLimiter/Keys.antt =====
-- The keys of app/cache/rate_limiter.py.
use Prim.Native.Char.{Char}
use Prim.Native.String.{◌++◌}
use text.Mathlib.TextLemmas.{
  append_cancel_left, cons-append, nil-append, head-eq_of_cons-eq, tail-eq_of_cons-eq,
}
use fastapi_url_shortener.Base.{String, ◌≡◌, ◌≢◌, refl, sym, ap, ap₂, ◌∙◌}
use fastapi_url_shortener.RateLimiter.{rate_limit_key}

abbrev colon : Char
colon = ":"

-- The text holds no `:`.
abbrev pub NoColon : String → Type 0
NoColon String.[] = Unit
NoColon (String.◌∷◌ c s) = (c ≢ colon) × NoColon s

colon-append : (e : String) → ":" ++ e ≡ String.◌∷◌ colon e
colon-append e = cons-append colon String.[] e ∙ ap (String.◌∷◌ colon) (nil-append e)

-- A text with a `:` in the middle is not free of it.
not-NoColon : (i e t : String) → t ≡ i ++ ":" ++ e → ¬ NoColon t
not-NoColon String.[] e String.[] h = λ n. cc (h, nil-append (":" ++ e), colon-append e)
not-NoColon String.[] e (String.◌∷◌ c t) h =
    λ n. n.0 (head-eq_of_cons-eq (h ∙ nil-append (":" ++ e) ∙ colon-append e))
not-NoColon (String.◌∷◌ d i) e String.[] h = λ n. cc (h, cons-append d i (":" ++ e))
not-NoColon (String.◌∷◌ d i) e (String.◌∷◌ c t) h =
    λ n. not-NoColon i e t (tail-eq_of_cons-eq (h ∙ cons-append d i (":" ++ e))) n.1

split_inj :
    (i j e f : String) → NoColon e → NoColon f → i ++ ":" ++ e ≡ j ++ ":" ++ f → (i ≡ j) × (e ≡ f)
split_inj String.[] String.[] e f ne nf h =
    (refl, append_cancel_left ":" e f (sym (nil-append (":" ++ e)) ∙ h ∙ nil-append (":" ++ f)))
split_inj String.[] (String.◌∷◌ d j) e f ne nf h = absurd (
    not-NoColon j f e
      (tail-eq_of_cons-eq
        (sym (colon-append e) ∙ sym (nil-append (":" ++ e)) ∙ h ∙ cons-append d j (":" ++ f)))
      ne)
split_inj (String.◌∷◌ c i) String.[] e f ne nf h = absurd (
    not-NoColon i e f
      (tail-eq_of_cons-eq
        (sym (colon-append f) ∙ sym (nil-append (":" ++ f)) ∙ sym h ∙ cons-append c i (":" ++ e)))
      nf)
split_inj (String.◌∷◌ c i) (String.◌∷◌ d j) e f ne nf h =
    let same = sym (cons-append c i (":" ++ e)) ∙ h ∙ cons-append d j (":" ++ f) in
    let (rest, ends) = split_inj i j e f ne nf (tail-eq_of_cons-eq same) in
    (ap₂ String.◌∷◌ (head-eq_of_cons-eq same) rest, ends)

-- Two requests with the same key have the same identifier and the same endpoint, whatever text the
-- client put into the identifier, where the endpoints' names hold no `:`.
pub rate_limit_key-injective :
    (i j e f : String)
    → NoColon e
    → NoColon f
    → rate_limit_key i e ≡ rate_limit_key j f
    → (i ≡ j) × (e ≡ f)
unfolding rate_limit_key
rate_limit_key-injective i j e f ne nf h =
    split_inj i j e f ne nf (append_cancel_left "ratelimit:" (i ++ ":" ++ e) (j ++ ":" ++ f) h)
