-- ===== src/Formats.antt =====
-- What the program writes as text: JSON objects, UUIDs and times. The libraries that do so are a
-- parameter; `IsFormats` is what the program relies on of them, and `Memory` meets it.
pub mod Memory
use fastapi_url_shortener.Base.{
  String, ◌≡◌, Bool, true, false, not, Option, none, some, List, [], ◌∷◌, ◌==◌, if◌then◌else◌,
  string_eq,
}
use fastapi_url_shortener.Models.{Uuid, DateTime}

-- The JSON values that are fields of the objects which the program stores.
pub data Scalar : Type 0 where
  null : Scalar
  bool : Bool → Scalar
  text : String → Scalar

abbrev pub JsonObject : Type 0
JsonObject = List (String × Scalar)

-- `d.get(key)`, with `null` for a missing key.
abbrev pub get : String → JsonObject → Scalar
get key [] = null
get key ((k, v) ∷ d) = if k == key then v else get key d

abbrev pub optional_text : Option String → Scalar
optional_text none = null
optional_text (some s) = text s

-- A field that is a text, or None.
abbrev pub as_text : Scalar → Option String
as_text null = none
as_text (bool b) = none
as_text (text s) = some s

pub record Formats : Type 0 where
  -- json.dumps, json.loads
  pub dumps : JsonObject → String
  pub loads : String → Option JsonObject
  -- str(u), uuid.UUID(s)
  pub uuid_str : Uuid → String
  pub uuid_parse : String → Option Uuid
  -- t.isoformat(), datetime.fromisoformat(s)
  pub isoformat : DateTime → String
  pub fromisoformat : String → Option DateTime
  -- hashlib.sha256(s.encode()).hexdigest()
  pub sha256 : String → String

pub record IsFormats (f : Formats) : Type 0 where
  pub loads-dumps : (d : JsonObject) → f.loads (f.dumps d) ≡ some d
  pub uuid_parse-uuid_str : (u : Uuid) → f.uuid_parse (f.uuid_str u) ≡ some u
  pub fromisoformat-isoformat : (t : DateTime) → f.fromisoformat (f.isoformat t) ≡ some t
  pub isoformat_nonempty : (t : DateTime) → (f.isoformat t == "") ≡ false

-- `json` on objects with objects and lists inside.
pub record NestedJson : Type 1 where
  pub Dict : Type 0
  pub dumps : Dict → String
  pub loads : String → Option Dict

pub record IsNestedJson (j : NestedJson) : Type 0 where
  pub loads-dumps : (d : j.Dict) → j.loads (j.dumps d) ≡ some d
  pub dumps_nonempty : (d : j.Dict) → (j.dumps d == "") ≡ false
