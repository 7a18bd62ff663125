-- ===== src/Endpoint.antt =====
-- The admin endpoints of endpoint.go over the cache, and TrimBy of pkg/helper/helper.go.
-- Parameters: the JSON of a payload, the replacer, and the regular expressions of Go, as the test
-- whether a compiled text matches a key. `none` is a panic.
pub mod Routes
pub mod Purge
pub mod Payload
pub mod Tests
use cdp_cache.Base.{
  ℕ, zero, suc, Bool, true, false, not, ◌||◌, Option, none, some, List, [], ◌∷◌, ◌++◌, drop, take,
  ◌==◌, if◌then◌else◌,
}
use cdp_cache.Base.Text.{
  Str, Pieces, codes, str_eq, has_prefix, has_suffix, index_byte, split_byte, pieces_list,
}
use cdp_cache.Http.{Request}
use cdp_cache.Status.{Clock}
use cdp_cache.Entry.{Entry}
use cdp_cache.Store as Caches
use cdp_cache.Store.{HttpCache, keys}
use cdp_cache.Store.Cleaning.{Outside, CleanResult, del}

-- `str[index+1:]`, where the index is -1 if there is no separator.
abbrev pub after_index : Option ℕ → Str → Str
after_index none s = s
after_index (some i) s = drop (suc i) s

-- helper.TrimBy for a separator of one byte.
unfoldable pub trim_by : Str → ℕ → ℕ → Str
trim_by s sep zero = s
trim_by s sep (suc count) = trim_by (after_index (index_byte s sep) s) sep count

pub record PurgePayload : Type 0 where
  pub method : Str
  pub host : Str
  pub uri : Str
  pub path : Str
  pub query : Str

-- parseMethod
unfoldable pub parse_method : PurgePayload → PurgePayload
parse_method p = if str_eq p.method [] then record p { method = codes "GET" } else p

abbrev pub with_query : List Str → PurgePayload → PurgePayload
with_query [] p = p
with_query (token ∷ tokens) p = record p { query = token }

-- parseURI: what stands behind a second question mark is dropped.
unfoldable pub parse_uri : PurgePayload → PurgePayload
parse_uri p =
    let tokens = split_byte p.uri b'?' in
    let q = with_query tokens.others p in record q { path = tokens.first }

abbrev add_bytes : Str → Pieces → Pieces
add_bytes s p = record p { first = s ++ p.first }

-- strings.Split at "//"; the flag says that a slash stands before the text.
unfoldable pub split_slashes : Bool → Str → Pieces
split_slashes false [] = record { first = []; others = [] }
split_slashes true [] = record { first = codes "/"; others = [] }
split_slashes false (c ∷ s) =
    let rest = split_slashes (c == b'/') s in if c == b'/' then rest else add_bytes (c ∷ []) rest
split_slashes true (c ∷ s) =
    let rest = split_slashes false s in
    if c == b'/'
    then record { first = []; others = pieces_list rest }
    else add_bytes (b'/' ∷ c ∷ []) rest

infixl 5 ◌>>=◌
abbrev ◌>>=◌ {ℓ κ} : {A : Type ℓ} {B : Type κ} → Option A → (A → Option B) → Option B
none >>= f = none
some a >>= f = f a

abbrev second_piece : List Str → Option Str
second_piece [] = none
second_piece (s ∷ ss) = some s

-- The host behind the scheme; a host with no "//" has no second piece.
unfoldable pub without_scheme : Str → Option Str
unfolding split_slashes
without_scheme host =
    if has_prefix host (codes "http") || has_prefix host (codes "https")
    then second_piece (split_slashes false host).others
    else some host

-- pruneHost
unfoldable pub prune_host : PurgePayload → Option PurgePayload
prune_host p = do
  host ← without_scheme p.host
  some (record p { host = if has_suffix host (codes "/") then host else host ++ codes "/" })

-- transform
unfoldable pub transform : PurgePayload → Option PurgePayload
transform p = prune_host (parse_uri (parse_method p))

-- The loop of Purge: an error of Del ends it. The clock has its readings for each key.
unfoldable pub purge_keys :
    Outside → (Str → Bool) → (Str → Clock) → List Str → HttpCache → Option (HttpCache × Option Str)
purge_keys o match clock [] h = some (h, none)
purge_keys o match clock (k ∷ ks) h =
    let next = λ (g : HttpCache). purge_keys o match clock ks g in
    if match k
    then elim (del o k (clock k) h) [
      | none ↦ none
      | some (g, (bodies, some err)) ↦ some (g, some err)
      | some (g, (bodies, none)) ↦ next g
    ]
    else next h

-- Purge
unfoldable pub purge :
    Outside → (Str → Bool) → (Str → Clock) → HttpCache → Option (HttpCache × Option Str)
unfolding purge_keys
purge o match clock h = purge_keys o match clock (keys h) h

-- What an endpoint answers.
pub data Shown : Type 0 where
  method_not_allowed : Shown
  keys_listed : List Str → Shown
  entry_shown : Entry → Shown
  nothing_shown : Shown

abbrev pub shown_entry : Option Entry → Shown
shown_entry none = nothing_shown
shown_entry (some e) = entry_shown e

-- handleShowCache, up to the body that it writes.
unfoldable pub handle_show_cache : HttpCache → Request → Clock → Option Shown
handle_show_cache h r clock =
    if not (str_eq r.method (codes "GET"))
    then some method_not_allowed
    else Caches.get h (trim_by r.path b'/' 2) r false clock >>= (λ found. some (shown_entry found))

-- handleListCacheKeys
unfoldable pub handle_list_cache_keys : HttpCache → Request → Shown
handle_list_cache_keys h r =
    if not (str_eq r.method (codes "GET")) then method_not_allowed else keys_listed (keys h)

-- handleCacheEndpoints
unfoldable pub handle_cache_endpoints : HttpCache → Request → Clock → Option Shown
unfolding handle_list_cache_keys handle_show_cache
handle_cache_endpoints h r clock =
    if str_eq r.path (codes "/caches/")
    then some (handle_list_cache_keys h r)
    else handle_show_cache h r clock

-- The template with its first question mark escaped; without one the slice panics.
unfoldable pub escape_template : Str → Option Str
escape_template t = index_byte t b'?' >>= (λ i. some (take i t ++ codes "\\" ++ drop i t))

-- How handlePurge ends: with a status, with the error of the JSON, or with what Purge returns.
pub data Purged : Type 0 where
  not_allowed bad_payload : Purged
  purged : HttpCache → Option Str → Purged

abbrev purged_as : HttpCache × Option Str → Purged
purged_as (h, e) = purged h e

-- handlePurge, for the payload that the body is read as. The template is that of the package
-- variable `config`.
unfoldable pub handle_purge :
    Outside
    → (PurgePayload → Str → Str)
    → (Str → Str → Bool)
    → (Str → Clock)
    → Str
    → Str
    → Option PurgePayload
    → HttpCache
    → Option Purged
handle_purge o replace match clock template method payload h =
    if not (str_eq method (codes "DELETE")) then some not_allowed else elim payload [
      | none ↦ some bad_payload
      | some p ↦ transform p >>= (λ q. escape_template template >>= (λ escaped.
          purge o (match (replace q escaped)) clock h >>= (λ result. some (purged_as result))))
    ]
