-- ===== src/Rule.antt =====
-- The rule matchers of cache.go: which responses may be cached.
use cdp_cache.Base.{ℕ, Bool, false, ◌||◌, List, [], ◌∷◌}
use cdp_cache.Base.Text.{Str, str_eq, has_prefix}
use cdp_cache.Header
use cdp_cache.Header.{Header}
use cdp_cache.Http.{Request}

-- PathRuleMatcher and HeaderRuleMatcher behind the interface RuleMatcher.
pub data RuleMatcher : Type 0 where
  path_rule : Str → RuleMatcher
  header_rule : Str → List Str → RuleMatcher

-- The loop of HeaderRuleMatcher.matches.
unfoldable pub any_value : List Str → Str → Bool
any_value [] header_value = false
any_value (v ∷ vs) header_value = str_eq v header_value || any_value vs header_value

unfoldable pub matches : RuleMatcher → Request → ℕ → Header → Bool
unfolding any_value
matches (path_rule path) req status_code res_headers = has_prefix req.path path
matches (header_rule header vs) req status_code res_headers =
    any_value vs (Header.get res_headers header)
