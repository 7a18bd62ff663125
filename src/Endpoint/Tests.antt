-- ===== src/Endpoint/Tests.antt =====
-- Runs of the admin endpoints, and their theorems at concrete requests.
use mathlib.Core.Option
use cdp_cache.Base.{◌≡◌, refl, false, some, [], ◌∷◌}
use cdp_cache.Base.Int.{pos}
use cdp_cache.Base.Text.{codes, str_eq, has_prefix, has_suffix, split_byte, index_byte, join}
use cdp_cache.Http.{Request}
use cdp_cache.Status.{Clock}
use cdp_cache.Store as Caches
use cdp_cache.Store.{HttpCache}
use cdp_cache.Endpoint.{
  PurgePayload, trim_by, parse_method, parse_uri, without_scheme, prune_host, transform,
  escape_template, shown_entry, handle_cache_endpoints,
}
use cdp_cache.Storage.{clean, clean_names}
use cdp_cache.Endpoint.Routes.{clean_path, route, routed, caches_route}
use cdp_cache.Endpoint.Purge.{show_round_trip}

trim_by_test : trim_by (codes "/localhost/caches/abc.txt") b'/' 2 ≡ codes "caches/abc.txt"
unfolding trim_by index_byte
trim_by_test = refl

abbrev payload : PurgePayload
payload = record {
  method = [];
  host = codes "http://example.com";
  uri = codes "static?ext=txt";
  path = [];
  query = [];
}

transform_test :
    transform payload
    ≡ some (record payload {
      method = codes "GET";
      host = codes "example.com/";
      path = codes "static";
      query = codes "ext=txt";
    })
unfolding transform parse_method parse_uri prune_host without_scheme str_eq split_byte has_prefix
    has_suffix
transform_test = refl

escape_template_test :
    escape_template (codes "GET {host}?{query}") ≡ some (codes "GET {host}\\?{query}")
unfolding escape_template index_byte
escape_template_test = refl

abbrev empty : HttpCache
empty = record {
  cache_key_template = [];
  cache_buckets_num = 1;
  entries = [] ∷ [];
  is_distributed = false;
}

abbrev show : Request
show = record { method = codes "GET"; path = codes "/caches/GET host/a?"; header = [] }

abbrev early : Clock
early n = pos 1

show_round_trip_example :
    (route show.path ≡ routed caches_route)
    × (handle_cache_endpoints empty show early
        ≡ Option.map shown_entry (Caches.get empty (codes "GET host/a?") show false early))
unfolding clean_path clean clean_names split_byte has_prefix has_suffix join str_eq
show_round_trip_example =
    show_round_trip empty show (codes "GET host/a?") early refl (λ e. cc) (λ e. cc) refl refl

abbrev httpbin : PurgePayload
httpbin = record payload { host = codes "httpbin" }
