-- ===== src/Provision.antt =====
-- Provision of handler.go with the package variables that it sets, and Cleanup.
-- Parameters: the initialisation of the storages and the module of the distributed cache, each
-- with the error that it may return.
pub mod PackageConfig
pub mod Tests
use cdp_cache.Base.{ℕ, Bool, true, false, Option, none, some, List, [], ◌∷◌, if◌then◌else◌}
use cdp_cache.Base.Int.{ℤ, pos, ltb_ℤ}
use cdp_cache.Base.Text.{Str, codes, str_eq}
use cdp_cache.Config.{Config, get_default_config, redis, in_memory}
use cdp_cache.Config.Caddyfile.{Tools, provision_rule_matchers}
use cdp_cache.Store.{HttpCache, Bucket, new_http_cache, ◌>>=◌}
use cdp_cache.UrlLock.{UrlLock, new_url_lock}

-- The package variables `config`, `cache` and `entries`.
pub record Globals : Type 0 where
  pub config : Option Config
  pub cache : Option HttpCache
  pub entries : Option (List Bucket)

-- What provisioning calls outside of it; `some` is the error.
pub record Services : Type 0 where
  pub init_group_cache : ℤ → Option Str
  pub provision_redis : Str → Option Str
  pub load_distributed : Option Str → Option Str

-- The package variables afterwards, and the error.
abbrev pub Provisioned : Type 0
Provisioned = Globals × Option Str

abbrev is_raw : Option Str → Bool
is_raw none = false
is_raw (some raw) = true

abbrev config_or_default : Option Config → Config
config_or_default none = get_default_config
config_or_default (some c) = c

-- provisionDistributed and the assignment behind it.
abbrev pub with_distributed : Globals → Config → Option Str → Provisioned
with_distributed g c none = (record g { config = some c }, none)
with_distributed g c (some e) = (g, some e)

abbrev pub with_group_cache : Globals → Option Str → Provisioned → Provisioned
with_group_cache g none rest = rest
with_group_cache g (some e) rest = (g, some e)

-- NewURLLock; `none` is the panic of `make` for a negative number of buckets.
abbrev pub url_locks : Config → Option UrlLock
url_locks c = if ltb_ℤ c.cache_buckets_num (pos 0) then none else some (new_url_lock c)

-- Behind NewHTTPCache and NewURLLock.
unfoldable pub provision_backends :
    Services → Option Str → Config → Globals → HttpCache → Provisioned
provision_backends services raw c g h =
    let g' : Globals = record g { cache = some h; entries = some h.entries } in
    let rest = with_distributed g' c (services.load_distributed raw) in
    if str_eq c.cache_type in_memory
    then with_group_cache g' (services.init_group_cache c.cache_max_memory_size) rest
    else if str_eq c.cache_type redis
    then (g', services.provision_redis c.redis_connection_setting)
    else rest

-- From NewHTTPCache on; `none` is a panic.
unfoldable pub provision_cache : Services → Option Str → Config → Globals → Option Provisioned
unfolding provision_backends
provision_cache services raw c g = do
  h ← new_http_cache g.entries c (is_raw raw)
  locks ← url_locks c
  some (provision_backends services raw c g h)

abbrev with_rules : Services → Option Str → Option Config → Globals → Option Provisioned
with_rules services raw none g = some (g, some (codes "json"))
with_rules services raw (some c) g = provision_cache services raw c g

-- Provision; `none` is a panic.
unfoldable pub provision :
    Tools → Services → Option Config → Option Str → Globals → Option Provisioned
provision tools services config raw g =
    with_rules services raw (provision_rule_matchers tools (config_or_default config)) g

-- Cleanup of the handler; `release` is what ReleaseGroupCacheRes returns.
unfoldable pub cleanup_handler : Option Str → Config → Option Str
cleanup_handler release c = if str_eq c.cache_type in_memory then release else none
