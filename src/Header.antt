-- ===== src/Header.antt =====
-- The part of net/http's Header that the program uses, and copyHeaders of response.go.
-- A header is a Go map from canonical names to lists of values.
pub mod Copy
pub mod Tests
use cdp_cache.Base.{
  ℕ, Bool, true, false, ◌&&◌, ◌||◌, Option, none, some, List, [], ◌∷◌, ◌++◌, ◌-◌, ◌+◌, ◌==◌, leb,
  if◌then◌else◌,
}
use cdp_cache.Base.Text.{Str, codes, contains_byte, str_eq}
use cdp_cache.Base.Assoc.{lookup, insert, erase}

abbrev pub Header : Type 0
Header = List (Str × List Str)

-- The bytes of an HTTP token.
is_token_byte : ℕ → Bool
unfolding contains_byte
is_token_byte c =
    (leb b'a' c && leb c b'z')
    || (leb b'A' c && leb c b'Z')
    || (leb b'0' c && leb c b'9')
    || contains_byte (codes "!#$%&'*+-.^_`|~") c

all_token : Str → Bool
unfolding is_token_byte
all_token [] = true
all_token (c ∷ s) = is_token_byte c && all_token s

upper_byte : ℕ → ℕ
upper_byte c = if leb b'a' c && leb c b'z' then c - 32 else c

lower_byte : ℕ → ℕ
lower_byte c = if leb b'A' c && leb c b'Z' then c + 32 else c

-- Upper case at the start and after each dash, lower case elsewhere.
canonical_from : Bool → Str → Str
unfolding upper_byte lower_byte
canonical_from upper [] = []
canonical_from upper (c ∷ s) =
    let d = if upper then upper_byte c else lower_byte c in d ∷ canonical_from (d == b'-') s

-- textproto.CanonicalMIMEHeaderKey: a name with a byte that is no token byte is left alone.
unfoldable pub canonical_key : Str → Str
unfolding all_token canonical_from
canonical_key s = if all_token s then canonical_from true s else s

abbrev first_or_empty : Option (List Str) → Str
first_or_empty none = []
first_or_empty (some []) = []
first_or_empty (some (v ∷ vs)) = v

abbrev list_or_empty : Option (List Str) → List Str
list_or_empty none = []
list_or_empty (some vs) = vs

-- Header.Values
unfoldable pub values : Header → Str → List Str
values h k = list_or_empty (lookup (canonical_key k) h)

-- Header.Get: the first value, or the empty string.
unfoldable pub get : Header → Str → Str
get h k = first_or_empty (lookup (canonical_key k) h)

-- Header.Set replaces all the values of a name.
unfoldable pub set : Header → Str → Str → Header
set h k v = insert (canonical_key k) (v ∷ []) h

-- Header.Del
unfoldable pub del : Header → Str → Header
del h k = erase (canonical_key k) h

-- The inner loop of copyHeaders, over the values of one name.
unfoldable pub copy_values : Str → List Str → Header → Header
copy_values k [] to = to
copy_values k (v ∷ vs) to = copy_values k vs (set to k v)

-- copyHeaders; the names are visited in the order of the list.
unfoldable pub copy_headers : Header → Header → Header
unfolding copy_values
copy_headers [] to = to
copy_headers ((k, vs) ∷ from) to = copy_headers from (copy_values k vs to)
