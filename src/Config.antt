-- ===== src/Config.antt =====
-- Config of caddyfile.go and its defaults.
pub mod Caddyfile
pub mod Rules
pub mod Tests
use cdp_cache.Base.{ℕ, ◌*◌, List, [], ◌∷◌}
use cdp_cache.Base.Int.{ℤ, pos}
use cdp_cache.Base.Text.{Str, codes}
use cdp_cache.Rule.{RuleMatcher}

-- time.Second and time.Minute, in nanoseconds.
abbrev pub second : ℕ
second = 1000000000

abbrev pub minute : ℕ
minute = 60 * second

-- CacheType is a string in the source; the three constants of it.
abbrev pub file : Str
file = codes "file"

abbrev pub redis : Str
redis = codes "redis"

abbrev pub in_memory : Str
in_memory = codes "in_memory"

-- The units of size: 1 << (iota * 10).
abbrev pub byte : ℕ
byte = 1

abbrev pub kb : ℕ
kb = 1024 * byte

abbrev pub mb : ℕ
mb = 1024 * kb

abbrev pub gb : ℕ
gb = 1024 * mb

-- RuleMatcherRawWithType: the kind of a rule and its marshalled text.
pub record RuleMatcherRaw : Type 0 where
  pub kind : Str
  pub content : Str

abbrev pub matcher_type_path : Str
matcher_type_path = codes "path"

abbrev pub matcher_type_header : Str
matcher_type_header = codes "header"

pub record Config : Type 0 where
  pub cache_type : Str
  pub status_header : Str
  pub default_max_age : ℤ
  pub lock_timeout : ℤ
  pub rule_matchers_raws : List RuleMatcherRaw
  pub rule_matchers : List RuleMatcher
  pub match_methods : List Str
  pub cache_buckets_num : ℤ
  pub cache_max_memory_size : ℤ
  pub path : Str
  pub cache_key_template : Str
  pub redis_connection_setting : Str
  pub stale_max_age : ℤ

unfoldable pub get_default_config : Config
get_default_config = record {
  cache_type = file;
  status_header = codes "X-Cache-Status";
  default_max_age = pos (5 * minute);
  lock_timeout = pos (5 * minute);
  rule_matchers_raws = [];
  rule_matchers = [];
  match_methods = codes "GET" ∷ codes "HEAD" ∷ [];
  cache_buckets_num = pos 256;
  cache_max_memory_size = pos gb;
  path = codes "/tmp/caddy_cache";
  cache_key_template =
      codes
        "{http.request.method} {http.request.host}{http.request.uri.path}?{http.request.uri.query}";
  redis_connection_setting = codes "localhost:6379 0";
  stale_max_age = pos 0;
}
