-- ===== src/Provision/Tests.antt =====
-- Provision at concrete configurations.
use cdp_cache.Base.{◌≡◌, refl, none, some, []}
use cdp_cache.Base.Int.{negsuc}
use cdp_cache.Config.{Config, get_default_config, redis}
use cdp_cache.Config.Caddyfile.{Tools, provision_rules, provision_rule_matchers}
use cdp_cache.Store.{new_http_cache}
use cdp_cache.Provision.{
  Globals, Services, Provisioned, provision, provision_cache, provision_backends,
}
use cdp_cache.Provision.PackageConfig.{redis_leaves_config}

abbrev tools : Tools
tools = record {
  parse_duration = λ s. none;
  atoi = λ s. none;
  marshal = λ r. [];
  unmarshal_path = λ s. none;
  unmarshal_header = λ s. none;
  distributed_module = λ s. none;
}

abbrev all_fine : Services
all_fine = record {
  init_group_cache = λ n. none;
  provision_redis = λ s. none;
  load_distributed = λ raw. none;
}

abbrev at_start : Globals
at_start = record { config = none; cache = none; entries = none }

abbrev default : Config
default = get_default_config

abbrev on_redis : Config
on_redis = record default { cache_type = redis }

-- A negative number of buckets: NewHTTPCache panics.
negative_test :
    provision tools all_fine (some (record default { cache_buckets_num = negsuc 0 })) none at_start
    ≡ none
unfolding provision provision_cache provision_backends new_http_cache provision_rule_matchers
    provision_rules get_default_config
negative_test = refl

-- With redis there is no error, and the package variable `config` stays nil.
redis_test :
    (result : Provisioned)
    → provision tools all_fine (some on_redis) none at_start ≡ some result
    → (result.1 ≡ none) × (result.0.config ≡ none)
unfolding provision_rule_matchers provision_rules get_default_config
redis_test result e =
    redis_leaves_config tools all_fine on_redis on_redis none at_start result refl refl refl e
