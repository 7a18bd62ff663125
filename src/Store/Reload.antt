-- ===== src/Store/Reload.antt =====
-- NewHTTPCache of cache.go after a reload of the configuration: the package keeps the buckets of
-- the first call, and takes the new number of buckets for hashing.
use cdp_cache.Base.{◌≤◌, ◌≡◌, Bool, none, some, List, length, get_elem?-ge}
use cdp_cache.Base.Int.{magnitude}
use cdp_cache.Http.{Request}
use cdp_cache.Config.{Config}
use cdp_cache.Status.{Clock}
use cdp_cache.Bucket.{bucket_index}
use cdp_cache.Entry.{Entry}
use cdp_cache.Store.{Bucket, made_http_cache, bucket_of, get, put}

-- If the configuration that is loaded anew hashes a key beyond the buckets that were made first,
-- both Get and Put of that key index out of range.
pub reload_out_of_range :
    (old : List Bucket) (config put_config : Config) (distributed_on stale : Bool) (req : Request)
    (clock : Clock) (e : Entry)
    → length old ≤ bucket_index (magnitude config.cache_buckets_num) e.key
    → let h = made_http_cache (some old) config distributed_on in
      (get h e.key req stale clock ≡ none) × (put h e put_config ≡ none)
unfolding made_http_cache get put bucket_of
reload_out_of_range old config put_config distributed_on stale req clock e far =
    let beyond = get_elem?-ge old (bucket_index (magnitude config.cache_buckets_num) e.key) far in
    (rw beyond, rw beyond)
