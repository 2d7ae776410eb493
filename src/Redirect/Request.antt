-- ===== src/Redirect/Request.antt =====
-- What the endpoints read of a request: the address of the client. The header values are latin-1.
use Prim.Native.Char.{Char, code}
use fastapi_url_shortener.Base.{
  String, Bool, ◌&&◌, ◌||◌, Option, none, some, leb, ◌==◌, nat_eq, string_eq, if◌then◌else◌,
}

-- The headers and the address of the peer.
pub record Request : Type 0 where
  pub x_forwarded_for : Option String
  pub user_agent : Option String
  pub referer : Option String
  pub client_host : Option String

-- The characters up to U+00FF that `str.strip` takes away.
unfoldable pub is_space : Char → Bool
is_space c =
    (leb 9 (code c) && leb (code c) 13)
    || (leb 28 (code c) && leb (code c) 32)
    || code c == 133
    || code c == 160

-- `s.split(",")[0]`
unfoldable pub first_part : String → String
first_part String.[] = String.[]
first_part (String.◌∷◌ c s) =
    let rest = first_part s in if code c == b',' then String.[] else String.◌∷◌ c rest

-- `s.strip()`: from the left, then from the right
unfoldable pub strip_left : String → String
unfolding is_space
strip_left String.[] = String.[]
strip_left (String.◌∷◌ c s) = let rest = strip_left s in if is_space c then rest else String.◌∷◌ c s

abbrev pub cons_unless_blank : Char → String → String
cons_unless_blank c rest = if is_space c && rest == "" then String.[] else String.◌∷◌ c rest

unfoldable pub strip_right : String → String
unfolding is_space
strip_right String.[] = String.[]
strip_right (String.◌∷◌ c s) = cons_unless_blank c (strip_right s)

unfoldable pub strip : String → String
unfolding strip_left strip_right
strip s = strip_right (strip_left s)

-- The address in `main.redirect`: an empty first part falls back to the peer.
unfoldable pub redirect_ip : Request → Option String
unfolding first_part strip
redirect_ip q = elim q.x_forwarded_for [
  | none ↦ q.client_host
  | some h ↦ if strip (first_part h) == "" then q.client_host else some (strip (first_part h))
]

-- `_client_ip` of the URL endpoints: `if forwarded`, else the peer or "unknown"
abbrev pub host_or_unknown : Option String → String
host_or_unknown none = "unknown"
host_or_unknown (some h) = h

unfoldable pub client_ip : Request → String
unfolding first_part strip
client_ip q = elim q.x_forwarded_for [
  | none ↦ host_or_unknown q.client_host
  | some h ↦ if h == "" then host_or_unknown q.client_host else strip (first_part h)
]

-- `_get_client_ip` of the auth endpoints
unfoldable pub get_client_ip : Request → Option String
unfolding first_part strip
get_client_ip q = elim q.x_forwarded_for [
  | none ↦ q.client_host
  | some h ↦ if h == "" then q.client_host else some (strip (first_part h))
]
