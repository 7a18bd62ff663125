-- ===== src/Entry.antt =====
-- Entry of cache.go: a cached response with the request that it answered, matchVary, the key of
-- the storage backends, NewEntry and IsFresh.
-- The cache compares entries by pointer: `ident` is the address of one. The headers are those of
-- the response when its header is written; `snap_header` is the frozen copy.
pub mod Vary
pub mod StorageKey
pub mod Tests
use cdp_cache.Base.{
  ℕ, ◌+◌, ◌/◌, ◌%◌, Bool, true, false, not, ◌&&◌, ◌||◌, List, [], ◌∷◌, ◌++◌, ◌==◌, leb, ltb,
  if◌then◌else◌,
}
use cdp_cache.Base.Int.{ℤ, ltb_ℤ}
use cdp_cache.Base.Text.{Str, codes, str_eq, contains_byte, split_byte, pieces_list, trim_space}
use cdp_cache.Header
use cdp_cache.Header.{Header}
use cdp_cache.Http.{Request}
use cdp_cache.Config.{Config}
use cdp_cache.Status.{CacheControl, Clock, get_cache_status}

pub record Entry : Type 0 where
  pub ident : ℕ
  pub is_public : Bool
  pub expiration : ℤ
  pub key : Str
  pub request : Request
  pub code : ℕ
  pub header_map : Header
  pub snap_header : Header

-- NewEntry, for a response whose header is written.
unfoldable pub new_entry :
    CacheControl → ℕ → Str → Request → ℕ → Header → Header → Config → Clock → Entry
new_entry cc ident key request code header_map snap config clock =
    let (is_public, expiration) = get_cache_status cc request code snap config clock in
    record {
      ident = ident;
      is_public = is_public;
      expiration = expiration;
      key = key;
      request = request;
      code = code;
      header_map = header_map;
      snap_header = snap;
    }

-- IsFresh at the time that time.Now() returns.
unfoldable pub is_fresh : Entry → ℤ → Bool
is_fresh e now = ltb_ℤ now e.expiration

-- The loop of matchVary over the names of a Vary header.
unfoldable pub same_headers : List Str → Header → Header → Bool
same_headers [] cur old = true
same_headers (name ∷ names) cur old =
    str_eq (Header.get cur (trim_space name)) (Header.get old (trim_space name))
    && same_headers names cur old

unfoldable pub match_vary : Request → Entry → Bool
unfolding same_headers
match_vary cur e =
    same_headers (pieces_list (split_byte (Header.get e.header_map (codes "Vary")) b',')) cur.header
      e.request.header

-- The loop of keyWithRespectVary: the values, one after the other. The names are not trimmed.
unfoldable pub vary_values : List Str → Header → Str
vary_values [] h = []
vary_values (name ∷ names) h = Header.get h name ++ vary_values names h

-- The digits of net/url, in upper case.
unfoldable pub hex_digit : ℕ → ℕ
hex_digit d = if ltb d 10 then d + b'0' else d + 55

-- The bytes that url.PathEscape keeps.
unfoldable pub is_unreserved : ℕ → Bool
unfolding contains_byte
is_unreserved c =
    (leb b'a' c && leb c b'z')
    || (leb b'A' c && leb c b'Z')
    || (leb b'0' c && leb c b'9')
    || contains_byte (codes "-_.~$&+=:@") c

unfoldable pub path_escape : Str → Str
unfolding is_unreserved hex_digit
path_escape [] = []
path_escape (c ∷ s) =
    (if is_unreserved c then c ∷ [] else b'%' ∷ hex_digit (c / 16) ∷ hex_digit (c % 16) ∷ [])
    ++ path_escape s

unfoldable pub key_with_respect_vary : Entry → Str
unfolding vary_values
key_with_respect_vary e = path_escape (
    e.key
    ++ vary_values (pieces_list (split_byte (Header.get e.snap_header (codes "Vary")) b','))
        e.request.header)
