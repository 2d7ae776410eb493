-- ===== src/Utils/ShortCode.antt =====
-- app/utils/short_code.py. `draw i` is the index that `secrets.choice` draws for the character i.
use Prim.Native.Char.{Char}
use Prim.Native.String.{count}
use text.Mathlib.TextLemmas.{length-cons, length-nil}
use fastapi_url_shortener.Base.{
  ℕ, zero, suc, ◌<◌, String, ◌≡◌, Bool, true, ◌||◌, Option, none, some, arith, leb, ◌&&◌,
}
use Prim.Native.Char.{code}

-- `string.ascii_letters + string.digits`
abbrev pub alphabet : String
alphabet = "abcdefghijklmnopqrstuvwxyzABCDEFGHIJKLMNOPQRSTUVWXYZ0123456789"

-- `s[i]`
abbrev pub char_at : String → ℕ → Char
char_at String.[] i = "0"
char_at (String.◌∷◌ c s) zero = c
char_at (String.◌∷◌ c s) (suc i) = char_at s i

-- `length or settings.SHORT_CODE_LENGTH`
abbrev pub length_or : Option ℕ → ℕ → ℕ
length_or none default = default
length_or (some zero) default = default
length_or (some (suc n)) default = suc n

-- `"".join(secrets.choice(_ALPHABET) for _ in range(n))`, from the character i on
unfoldable pub random_text : ℕ → ℕ → (ℕ → ℕ) → String
random_text zero i draw = String.[]
random_text (suc n) i draw = String.◌∷◌ (char_at alphabet (draw i)) (random_text n (suc i) draw)

unfoldable pub generate_short_code : Option ℕ → ℕ → (ℕ → ℕ) → String
unfolding random_text
generate_short_code length default draw = random_text (length_or length default) 0 draw

-- The characters of the pattern `^[a-zA-Z0-9_-]+$` but for `_` and `-`.
abbrev pub is_alphanumeric : Char → Bool
is_alphanumeric c =
    (leb b'a' (code c) && leb (code c) b'z')
    || (leb b'A' (code c) && leb (code c) b'Z')
    || (leb b'0' (code c) && leb (code c) b'9')

abbrev pub AllChars : (Char → Bool) → String → Type 0
AllChars p String.[] = Unit
AllChars p (String.◌∷◌ c s) = (p c ≡ true) × AllChars p s

char_at-AllChars :
    (p : Char → Bool) (s : String) (i : ℕ) → i < count s → AllChars p s → p (char_at s i) ≡ true
char_at-AllChars p String.[] i h all = absurd (omega (arith, length-nil))
char_at-AllChars p (String.◌∷◌ c s) zero h all = all.0
char_at-AllChars p (String.◌∷◌ c s) (suc i) h all =
    char_at-AllChars p s i (omega (arith, length-cons c s)) all.1

alphabet-AllChars : AllChars is_alphanumeric alphabet
alphabet-AllChars = ground arith

random_text-AllChars :
    (n i : ℕ) (draw : ℕ → ℕ)
    → ((k : ℕ) → draw k < 62)
    → AllChars is_alphanumeric (random_text n i draw)
unfolding random_text
random_text-AllChars zero i draw h = tt
random_text-AllChars (suc n) i draw h = (
  char_at-AllChars is_alphanumeric alphabet (draw i) (h i) alphabet-AllChars,
  random_text-AllChars n (suc i) draw h,
)

count-random_text : (n i : ℕ) (draw : ℕ → ℕ) → count (random_text n i draw) ≡ n
unfolding random_text
count-random_text zero i draw = length-nil
count-random_text (suc n) i draw = omega (
  arith,
  length-cons (char_at alphabet (draw i)) (random_text n (suc i) draw),
  count-random_text n (suc i) draw,
)

-- A generated code has the asked length, or the default where that is missing or 0, and is made of
-- ASCII letters and digits, where each draw is below the size of the alphabet.
pub generate_short_code_lem :
    (length : Option ℕ) (default : ℕ) (draw : ℕ → ℕ)
    → ((k : ℕ) → draw k < 62)
    → (count (generate_short_code length default draw) ≡ length_or length default)
      × AllChars is_alphanumeric (generate_short_code length default draw)
unfolding generate_short_code
generate_short_code_lem length default draw h = (
  count-random_text (length_or length default) 0 draw,
  random_text-AllChars (length_or length default) 0 draw h,
)
