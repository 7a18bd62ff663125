-- ===== src/Provision/PackageConfig.antt =====
-- The package variable `config` after Provision of handler.go: handlePurge of endpoint.go reads it.
use cdp_cache.Base.{◌≡◌, ◌≢◌, Option, none, some, arith}
use cdp_cache.Base.Text.{Str, str_eq, str_eq_of_ne}
use cdp_cache.Config.{Config, redis}
use cdp_cache.Config.Caddyfile.{Tools, provision_rule_matchers}
use cdp_cache.Store.{new_http_cache}
use cdp_cache.Provision.{
  Globals, Services, Provisioned, provision_backends, provision_cache, provision,
}

-- With the storage redis, if the rules can be read, nothing panics and the client of redis can be
-- made, Provision ends without an error and leaves the package variable `config` as it was, whatever
-- the distributed module is.
pub redis_leaves_config :
    (tools : Tools) (services : Services) (config provisioned : Config) (raw : Option Str)
    (g : Globals) (result : Provisioned)
    → provision_rule_matchers tools config ≡ some provisioned
    → provisioned.cache_type ≡ redis
    → services.provision_redis provisioned.redis_connection_setting ≡ none
    → provision tools services (some config) raw g ≡ some result
    → (result.1 ≡ none) × (result.0.config ≡ g.config)
unfolding provision provision_cache provision_backends new_http_cache str_eq
redis_leaves_config tools services config c raw g result p t e ends = ground (arith, p, t, e, ends)

-- With any other storage, if the rules can be read, a Provision that ends without an error has set
-- the package variable `config` to the provisioned configuration.
pub provision_sets_config :
    (tools : Tools) (services : Services) (config provisioned : Config) (raw : Option Str)
    (g : Globals) (result : Provisioned)
    → provision_rule_matchers tools config ≡ some provisioned
    → provisioned.cache_type ≢ redis
    → provision tools services (some config) raw g ≡ some result
    → result.1 ≡ none
    → result.0.config ≡ some provisioned
unfolding provision provision_cache provision_backends new_http_cache
provision_sets_config tools services config c raw g result p t ends =
    ground (arith, str_eq_of_ne t, ends)
