-- ===== src/Config/Tests.antt =====
-- A block of parameters, and its theorem at it.
use cdp_cache.Base.{ℕ, zero, suc, ◌≡◌, refl, ap, Option, none, some, List, [], ◌∷◌}
use cdp_cache.Base.Int.{pos}
use cdp_cache.Base.Text.{Str, codes, str_eq}
use cdp_cache.Rule.{RuleMatcher, path_rule, header_rule}
use cdp_cache.Config.{Config, get_default_config}
use cdp_cache.Config.Caddyfile.{
  Tools, Segment, set_field, apply_segment, apply_segments, unmarshal_caddyfile,
  provision_rule_matchers,
}
use cdp_cache.Config.Rules.{IsFaithful, rule_of, rules_of, rules_roundtrip}

-- A text for a list of strings: each byte is one more than it was, and 0 ends a string.
written : List Str → Str
written [] = []
written ([] ∷ ss) = 0 ∷ written ss
written ((c ∷ s) ∷ ss) = suc c ∷ written (s ∷ ss)

put_first : ℕ → List Str → List Str
put_first c [] = []
put_first c (s ∷ ss) = (c ∷ s) ∷ ss

read : Str → List Str
read [] = []
read (zero ∷ t) = [] ∷ read t
read (suc c ∷ t) = put_first c (read t)

read-written : (ss : List Str) → read (written ss) ≡ ss
unfolding written read put_first
read-written [] = refl
read-written ([] ∷ ss) = rw (read-written ss) refl
read-written ((c ∷ s) ∷ ss) = rw (read-written (s ∷ ss)) refl

abbrev as_header : List Str → Option RuleMatcher
as_header [] = none
as_header (h ∷ vs) = some (header_rule h vs)

marshalled : RuleMatcher → Str
unfolding written
marshalled (path_rule p) = p
marshalled (header_rule h vs) = written (h ∷ vs)

abbrev tools : Tools
tools = record {
  parse_duration = λ s. some (pos 60);
  atoi = λ s. none;
  marshal = marshalled;
  unmarshal_path = λ s. some (path_rule s);
  unmarshal_header = λ s. as_header (read s);
  distributed_module = λ s. none;
}

tools-IsFaithful : IsFaithful tools
unfolding marshalled
tools-IsFaithful = record {
  path = λ p. refl;
  header = λ h vs. ap as_header (read-written (h ∷ vs));
}

abbrev block : List Segment
block =
    (codes "match_path", codes "/a" ∷ [])
    ∷ (codes "status_header", codes "X-Cache" ∷ [])
    ∷ (codes "match_header", codes "Etag" ∷ codes "x" ∷ codes "y" ∷ [])
    ∷ []

config : Unit {0}
unfolding str_eq set_field apply_segment apply_segments unmarshal_caddyfile get_default_config
    rule_of rules_of marshalled read
config = tt

-- One method is too few, and an unknown parameter is an error.
unmarshal_tests :
    (unmarshal_caddyfile tools ((codes "match_methods", codes "GET" ∷ []) ∷ []) ≡ none)
    × (unmarshal_caddyfile tools ((codes "stale", codes "1m" ∷ []) ∷ []) ≡ none)
unfolding config
unmarshal_tests = (refl, refl)

abbrev read_block : Config
read_block = record default {
  status_header = codes "X-Cache";
  rule_matchers_raws =
      record { kind = codes "path"; content = codes "/a" }
      ∷ record {
        kind = codes "header";
        content = marshalled (header_rule (codes "Etag") (codes "x" ∷ codes "y" ∷ []));
      }
      ∷ [];
}
  where
    default : Config
    default = get_default_config

rules_roundtrip_example :
    provision_rule_matchers tools read_block
    ≡ some (record read_block {
      rule_matchers =
          path_rule (codes "/a") ∷ header_rule (codes "Etag") (codes "x" ∷ codes "y" ∷ []) ∷ [];
    })
unfolding config
rules_roundtrip_example =
    rules_roundtrip tools block (record { config = read_block; distributed_raw = none })
      tools-IsFaithful refl
