-- ===== src/Endpoint/Payload.antt =====
-- The payload of a purge in endpoint.go.
use cdp_cache.Base.{ℕ, ◌≡◌, refl, ◌∙◌, true, false, none, List, [], ◌∷◌, ◌++◌, arith}
use cdp_cache.Base.Text.{Str, codes, has_prefix, index_byte, split_byte}
use cdp_cache.Base.Split.{Lacks, split_byte-Lacks, split_byte-at}
use cdp_cache.Endpoint.{
  PurgePayload, with_query, parse_method, parse_uri, split_slashes, without_scheme, prune_host,
  transform, escape_template,
}

split_slashes-Lacks :
    (s : Str) → Lacks b'/' s → split_slashes false s ≡ record { first = s; others = [] }
unfolding split_slashes
split_slashes-Lacks [] n = refl
split_slashes-Lacks (c ∷ s) (n, m) = ground (arith, split_slashes-Lacks s m)

index_byte-Lacks : (s : Str) (c : ℕ) → Lacks c s → index_byte s c ≡ none
unfolding index_byte
index_byte-Lacks [] c n = refl
index_byte-Lacks (d ∷ s) c (n, m) = ground (arith, index_byte-Lacks s c m)

prune_host_of_none : (p : PurgePayload) → without_scheme p.host ≡ none → prune_host p ≡ none
unfolding prune_host
prune_host_of_none p e = rw e refl

without_scheme-Lacks :
    (host : Str)
    → has_prefix host (codes "http") ≡ true
    → Lacks b'/' host
    → without_scheme host ≡ none
unfolding without_scheme
without_scheme-Lacks host h n = rw (h, split_slashes-Lacks host n) refl

with_query-host : (tokens : List Str) (p : PurgePayload) → (with_query tokens p).host ≡ p.host
with_query-host [] p = refl
with_query-host (t ∷ ts) p = refl

parse_method-host : (p : PurgePayload) → (parse_method p).host ≡ p.host
unfolding parse_method
parse_method-host p = ground arith

parsed-host : (p : PurgePayload) → (parse_uri (parse_method p)).host ≡ p.host
unfolding parse_uri
parsed-host p =
    with_query-host (split_byte (parse_method p).uri b'?').others (parse_method p)
    ∙ parse_method-host p

-- The transformation of a payload whose host begins with "http" and has no slash at all, as for a
-- host named httpbin, panics.
pub transform_panics :
    (p : PurgePayload)
    → has_prefix p.host (codes "http") ≡ true
    → Lacks b'/' p.host
    → transform p ≡ none
unfolding transform
transform_panics p h n =
    prune_host_of_none (parse_uri (parse_method p))
      (rw (parsed-host p) (without_scheme-Lacks p.host h n))

-- A cache key template without a question mark cannot be escaped: the slice panics.
escape_template-panics : (t : Str) → Lacks b'?' t → escape_template t ≡ none
unfolding escape_template
escape_template-panics t n = rw (index_byte-Lacks t b'?' n) refl

-- A URI of a path, a question mark and a query, neither of which has a question mark, is split into
-- exactly these two.
pub parse_uri_split :
    (p : PurgePayload) (path query : Str)
    → Lacks b'?' path
    → Lacks b'?' query
    → p.uri ≡ path ++ b'?' ∷ query
    → ((parse_uri p).path ≡ path) × ((parse_uri p).query ≡ query)
unfolding parse_uri
parse_uri_split p path query n m e =
    rw (e, split_byte-at path query b'?' n, split_byte-Lacks query b'?' m) (refl, refl)
