-- ===== src/Status/Tests.antt =====
-- Runs of getCacheStatus and its theorems at concrete inputs.
use cdp_cache.Base.{◌*◌, ◌≡◌, refl, true, false, none, some, [], ◌∷◌, ◌↔◌, arith}
use cdp_cache.Base.Int.{ℤ, pos, negsuc, ◌+ℤ◌, ◌-ℤ◌, ◌<ℤ◌}
use cdp_cache.Base.Text.{codes, str_eq, has_prefix}
use cdp_cache.Base.Assoc.{lookup}
use cdp_cache.Header.{canonical_key, get}
use cdp_cache.Http.{Request}
use cdp_cache.Rule.{path_rule, matches}
use cdp_cache.Config.{Config, second, get_default_config}
use cdp_cache.Status.{CacheControl, Judged, Clock, is_given, seconds, judge, get_cache_status}
use cdp_cache.Status.Public.{IsCacheable, get_cache_status_public_iff}
use cdp_cache.Status.Expiry.{get_cache_status_fresh}

-- A library that reads the same two ages from every header and has nothing against caching.
abbrev ages : ℤ → ℤ → CacheControl
ages s m = record {
  ReqDirectives = Unit {0};
  RespDirectives = Unit {0};
  s_max_age = λ _. s;
  max_age = λ _. m;
  parse_response = λ _. some tt;
  parse_request = λ _. some tt;
  cachable_object = λ _. record { out_reasons = []; out_warnings = []; out_err = none };
  parse_time = λ _. none;
}

abbrev asked : Request
asked = record { method = codes "GET"; path = codes "/public/a.txt"; header = [] }

abbrev public_only : Config
public_only = record default { rule_matchers = path_rule (codes "/public") ∷ [] }
  where
    default : Config
    default = get_default_config

abbrev noon : Clock
noon n = pos (100 * second)

status : Unit {0}
unfolding get_cache_status judge get_default_config get canonical_key lookup str_eq matches
    has_prefix ◌+ℤ◌ ◌-ℤ◌ is_given seconds
status = tt

public_test :
    get_cache_status (ages (negsuc 0) (pos 5)) asked 200 [] public_only noon
    ≡ (true, pos (105 * second))
unfolding status
public_test = refl

default_test :
    get_cache_status (ages (negsuc 0) (pos 0)) asked 200 [] public_only noon
    ≡ (true, pos (400 * second))
unfolding status
default_test = refl

partial_test :
    get_cache_status (ages (negsuc 0) (pos 5)) asked 206 [] public_only noon
    ≡ (false, pos (400 * second))
unfolding status
partial_test = refl

get_cache_status_public_iff_example :
    ((get_cache_status (ages (negsuc 0) (pos 5)) asked 200 [] public_only noon).0 ≡ true)
    ↔ IsCacheable (ages (negsuc 0) (pos 5)) asked 200 [] public_only (noon 0)
get_cache_status_public_iff_example =
    get_cache_status_public_iff (ages (negsuc 0) (pos 5)) asked 200 [] public_only noon

get_cache_status_fresh_example : noon 1 <ℤ pos (105 * second)
unfolding status
get_cache_status_fresh_example =
    get_cache_status_fresh (ages (negsuc 0) (pos 5)) asked 200 [] public_only noon
      (λ n. omega arith) (omega arith) refl

abbrev zero_judged : Judged (Unit {0}) (Unit {0})
zero_judged = record {
  reasons = [];
  expiration = pos (100 * second);
  warnings = [];
  object = record {
    cache_is_private = false;
    resp_directives = tt;
    resp_headers = [];
    resp_status_code = 200;
    resp_expires_header = pos 0;
    resp_date_header = pos 0;
    resp_last_modified_header = pos 0;
    req_directives = some tt;
    req_headers = [];
    req_method = codes "GET";
    now_utc = pos (100 * second);
  };
}
