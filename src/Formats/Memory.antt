-- ===== src/Formats/Memory.antt =====
-- An instance of the formats, for tests: a text of pairs of a mark and a character, read from its
-- end.
use fastapi_url_shortener.Base.{
  ℕ, zero, suc, String, ◌≡◌, refl, ap, true, false, Option, none, some, [], ◌∷◌, ◌==◌, nat_eq,
  string_eq, if◌then◌else◌, Bool-cases, eq_iff, inl, inr, arith,
}
use Prim.Native.Char.{Char, code}
use fastapi_url_shortener.Formats.{Formats, IsFormats, JsonObject, Scalar, null, bool, text}

-- What has been read: the text so far, the value behind it and the fields behind that.
record Reader : Type 0 where
  current : String
  value : Scalar
  fields : JsonObject

abbrev start : Reader
start = record { current = ""; value = null; fields = [] }

abbrev step : Char → Char → Reader → Reader
step mark c s =
    if code mark == b'c'
    then record s { current = String.◌∷◌ c s.current }
    else if code mark == b'f'
    then record { current = ""; value = null; fields = (s.current, s.value) ∷ s.fields }
    else if code mark == b't'
    then record s { current = ""; value = text s.current }
    else if code mark == b'y'
    then record s { value = bool true }
    else if code mark == b'n'
    then record s { value = bool false }
    else s

abbrev read : String → Reader
read String.[] = start
read (String.◌∷◌ mark String.[]) = start
read (String.◌∷◌ mark (String.◌∷◌ c s)) = step mark c (read s)

abbrev put : Char → Char → String → String
put mark c s = String.◌∷◌ mark (String.◌∷◌ c s)

abbrev put_text : String → String → String
put_text String.[] rest = rest
put_text (String.◌∷◌ c s) rest = put "c" c (put_text s rest)

abbrev put_scalar : Scalar → String → String
put_scalar null rest = rest
put_scalar (bool true) rest = put "y" " " rest
put_scalar (bool false) rest = put "n" " " rest
put_scalar (text s) rest = put "t" " " (put_text s rest)

abbrev memory_dumps : JsonObject → String
memory_dumps [] = ""
memory_dumps ((k, v) ∷ d) = put "f" " " (put_text k (put_scalar v (memory_dumps d)))

abbrev unary : ℕ → String
unary zero = ""
unary (suc n) = String.◌∷◌ "1" (unary n)

abbrev size : String → ℕ
size String.[] = zero
size (String.◌∷◌ c s) = suc (size s)

abbrev after_mark : String → Option ℕ
after_mark String.[] = none
after_mark (String.◌∷◌ c s) = some (size s)

instance abbrev pub memory_formats : Formats
memory_formats = record {
  dumps = memory_dumps;
  loads = λ s. some (read s).fields;
  uuid_str = λ u. String.◌∷◌ "u" (unary u);
  uuid_parse = after_mark;
  isoformat = λ t. String.◌∷◌ "d" (unary t);
  fromisoformat = after_mark;
  sha256 = λ s. s;
}

read-put_text :
    (s rest : String) (v : Scalar) (d : JsonObject)
    → read rest ≡ record { current = ""; value = v; fields = d }
    → read (put_text s rest) ≡ record { current = s; value = v; fields = d }
read-put_text String.[] rest v d h = h
read-put_text (String.◌∷◌ c s) rest v d h = rw (read-put_text s rest v d h)

read-put_scalar :
    (v : Scalar) (rest : String) (d : JsonObject)
    → read rest ≡ record { current = ""; value = null; fields = d }
    → read (put_scalar v rest) ≡ record { current = ""; value = v; fields = d }
read-put_scalar null rest d h = h
read-put_scalar (bool true) rest d h = rw h
read-put_scalar (bool false) rest d h = rw h
read-put_scalar (text s) rest d h = rw (read-put_text s rest null d h)

read-memory_dumps :
    (d : JsonObject) → read (memory_dumps d) ≡ record { current = ""; value = null; fields = d }
read-memory_dumps [] = refl
read-memory_dumps ((k, v) ∷ d) = rw (
    read-put_text k (put_scalar v (memory_dumps d)) v d
      (read-put_scalar v (memory_dumps d) d (read-memory_dumps d)))

size-unary : (n : ℕ) → size (unary n) ≡ n
size-unary zero = refl
size-unary (suc n) = ap suc (size-unary n)

dated_nonempty : (t : ℕ) → (String.◌∷◌ "d" (unary t) == "") ≡ false
dated_nonempty t = elim (Bool-cases (String.◌∷◌ "d" (unary t) == "")) [
  | inl empty ↦ ground (arith, ap size ((eq_iff (String.◌∷◌ "d" (unary t)) "").0 empty))
  | inr filled ↦ filled
]

pub memory_formats-IsFormats : IsFormats memory_formats
memory_formats-IsFormats = record {
  loads-dumps = λ d. rw (read-memory_dumps d);
  uuid_parse-uuid_str = λ u. ap some (size-unary u);
  fromisoformat-isoformat = λ t. ap some (size-unary t);
  isoformat_nonempty = dated_nonempty;
}
