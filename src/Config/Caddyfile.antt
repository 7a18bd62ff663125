-- ===== src/Config/Caddyfile.antt =====
-- UnmarshalCaddyfile of caddyfile.go and provisionRuleMatchers of handler.go.
-- Parameters: the text of the block, as the dispenser of Caddy cuts it into parameters with their
-- arguments; time.ParseDuration, strconv.Atoi, the JSON of the two rules, and the module that
-- `distributed` names. An error is `none`; its text is left out.
use cdp_cache.Base.{Option, none, some, List, [], ◌∷◌, ◌++◌, if◌then◌else◌}
use cdp_cache.Base.Int.{ℤ}
use cdp_cache.Base.Text.{Str, codes, str_eq, join}
use cdp_cache.Rule.{RuleMatcher, path_rule, header_rule}
use cdp_cache.Config.{
  Config, RuleMatcherRaw, matcher_type_path, matcher_type_header, get_default_config,
}

pub record Tools : Type 0 where
  pub parse_duration : Str → Option ℤ
  pub atoi : Str → Option ℤ
  pub marshal : RuleMatcher → Str
  pub unmarshal_path : Str → Option RuleMatcher
  pub unmarshal_header : Str → Option RuleMatcher
  -- caddy.GetModule and the module's own UnmarshalCaddyfile
  pub distributed_module : Str → Option Str

-- A parameter of the block with its arguments.
abbrev pub Segment : Type 0
Segment = Str × List Str

-- What UnmarshalCaddyfile builds: the configuration, and DistributedRaw.
pub record Unmarshalled : Type 0 where
  pub config : Config
  pub distributed_raw : Option Str

infixl 5 ◌>>=◌
abbrev pub ◌>>=◌ {ℓ κ} : {A : Type ℓ} {B : Type κ} → Option A → (A → Option B) → Option B
none >>= f = none
some a >>= f = f a

-- `len(args) != 1`
abbrev pub one : List Str → Option Str
one [] = none
one (a ∷ []) = some a
one (a ∷ b ∷ args) = none

-- `len(args) > 3`
abbrev pub at_most_three : List Str → Option (List Str)
at_most_three [] = some []
at_most_three (a ∷ []) = some (a ∷ [])
at_most_three (a ∷ b ∷ []) = some (a ∷ b ∷ [])
at_most_three (a ∷ b ∷ c ∷ []) = some (a ∷ b ∷ c ∷ [])
at_most_three (a ∷ b ∷ c ∷ d ∷ args) = none

-- `len(args) < 2`
abbrev pub at_least_two : List Str → Option (Str × List Str)
at_least_two [] = none
at_least_two (a ∷ []) = none
at_least_two (a ∷ b ∷ args) = some (a, b ∷ args)

abbrev pub with_config : Unmarshalled → Config → Unmarshalled
with_config u c = record u { config = c }

module _ (tools : Tools) where
  abbrev pub raw : Str → RuleMatcher → RuleMatcherRaw
  raw kind rule = record { kind = kind; content = tools.marshal rule }

  abbrev pub add_raw : Unmarshalled → RuleMatcherRaw → Unmarshalled
  add_raw u r =
      let c = u.config in
      with_config u (record c { rule_matchers_raws = c.rule_matchers_raws ++ r ∷ [] })

  -- The cases of the switch that set one field, by the parameter.
  unfoldable pub set_field : Str → List Str → Config → Option Config
  set_field parameter args c =
      if str_eq parameter (codes "status_header")
      then one args >>= (λ a. some (record c { status_header = a }))
      else if str_eq parameter (codes "redis_connection_setting")
      then at_most_three args
        >>= (λ parts. some (record c { redis_connection_setting = join parts (codes " ") }))
      else if str_eq parameter (codes "cache_type")
      then one args >>= (λ a. some (record c { cache_type = a }))
      else if str_eq parameter (codes "lock_timeout")
      then one args
        >>= (λ a. tools.parse_duration a >>= (λ d. some (record c { lock_timeout = d })))
      else if str_eq parameter (codes "default_max_age")
      then one args
        >>= (λ a. tools.parse_duration a >>= (λ d. some (record c { default_max_age = d })))
      else if str_eq parameter (codes "path")
      then one args >>= (λ a. some (record c { path = a }))
      else if str_eq parameter (codes "match_methods")
      then at_least_two args
        >>= (λ (a, vs). some (record c { match_methods = c.match_methods ++ a ∷ vs }))
      else if str_eq parameter (codes "cache_key")
      then one args >>= (λ a. some (record c { cache_key_template = a }))
      else if str_eq parameter (codes "cache_bucket_num")
      then one args >>= (λ a. tools.atoi a >>= (λ n. some (record c { cache_buckets_num = n })))
      else if str_eq parameter (codes "cache_max_memory_size")
      then one args >>= (λ a. tools.atoi a >>= (λ n. some (record c { cache_max_memory_size = n })))
      else if str_eq parameter (codes "stale_max_age")
      then one args
        >>= (λ a. tools.parse_duration a >>= (λ d. some (record c { stale_max_age = d })))
      else none

  -- One round of the loop; the names of the parameters differ, so the order of the cases is free.
  unfoldable pub apply_segment : Segment → Unmarshalled → Option Unmarshalled
  unfolding set_field
  apply_segment (parameter, args) u =
      if str_eq parameter (codes "match_header")
      then at_least_two args
        >>= (λ (a, vs). some (add_raw u (raw matcher_type_header (header_rule a vs))))
      else if str_eq parameter (codes "match_path")
      then one args >>= (λ a. some (add_raw u (raw matcher_type_path (path_rule a))))
      else if str_eq parameter (codes "distributed")
      then one args >>= (λ a.
        tools.distributed_module a >>= (λ d. some (record u { distributed_raw = some d })))
      else set_field parameter args u.config >>= (λ c. some (with_config u c))

  unfoldable pub apply_segments : List Segment → Unmarshalled → Option Unmarshalled
  unfolding apply_segment
  apply_segments [] u = some u
  apply_segments (s ∷ ss) u = apply_segment s u >>= apply_segments ss

  -- UnmarshalCaddyfile
  unfoldable pub unmarshal_caddyfile : List Segment → Option Unmarshalled
  unfolding apply_segments
  unmarshal_caddyfile segments =
      apply_segments segments (record { config = get_default_config; distributed_raw = none })

  -- One round of provisionRuleMatchers; a type that is neither of the two is passed over.
  unfoldable pub provision_rule : RuleMatcherRaw → List RuleMatcher → Option (List RuleMatcher)
  provision_rule r rules =
      if str_eq r.kind matcher_type_path
      then tools.unmarshal_path r.content >>= (λ m. some (rules ++ m ∷ []))
      else if str_eq r.kind matcher_type_header
      then tools.unmarshal_header r.content >>= (λ m. some (rules ++ m ∷ []))
      else some rules

  unfoldable pub provision_rules :
      List RuleMatcherRaw → List RuleMatcher → Option (List RuleMatcher)
  unfolding provision_rule
  provision_rules [] rules = some rules
  provision_rules (r ∷ rs) rules = provision_rule r rules >>= provision_rules rs

  -- provisionRuleMatchers
  unfoldable pub provision_rule_matchers : Config → Option Config
  unfolding provision_rules
  provision_rule_matchers c =
      provision_rules c.rule_matchers_raws c.rule_matchers
      >>= (λ rules. some (record c { rule_matchers = rules }))
