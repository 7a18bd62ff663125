-- ===== src/Config/Rules.antt =====
-- From the rules of a block to the rule matchers: UnmarshalCaddyfile of caddyfile.go writes them
-- as JSON, provisionRuleMatchers of handler.go reads them back.
use cdp_cache.Base.{
  ◌≡◌, refl, ap, sym, subst, ◌∙◌, Option, none, some, List, [], ◌∷◌, ◌++◌, arith, if◌then◌else◌,
  Bool-cases, Option-cases, append-nil, append_assoc, inl, inr,
}
use mathlib.Core.Option
use cdp_cache.Base.Text.{Str, codes, str_eq}
use cdp_cache.Rule.{RuleMatcher, path_rule, header_rule}
use cdp_cache.Config.{
  Config, RuleMatcherRaw, matcher_type_path, matcher_type_header, get_default_config,
}
use cdp_cache.Config.Caddyfile.{
  Tools, Segment, Unmarshalled, ◌>>=◌, one, at_least_two, raw, add_raw, with_config, set_field,
  apply_segment, apply_segments, unmarshal_caddyfile, provision_rule, provision_rules,
  provision_rule_matchers,
}

-- The JSON of a rule reads back as the rule.
pub record IsFaithful (tools : Tools) : Type 0 where
  pub path : (p : Str) → tools.unmarshal_path (tools.marshal (path_rule p)) ≡ some (path_rule p)
  pub header :
      (h : Str) (vs : List Str)
      → tools.unmarshal_header (tools.marshal (header_rule h vs)) ≡ some (header_rule h vs)

abbrev header_rules : Option (Str × List Str) → List RuleMatcher
header_rules none = []
header_rules (some (h, vs)) = header_rule h vs ∷ []

abbrev path_rules : Option Str → List RuleMatcher
path_rules none = []
path_rules (some p) = path_rule p ∷ []

-- The rules that a block names, in its order.
unfoldable pub rule_of : Segment → List RuleMatcher
rule_of (parameter, args) =
    if str_eq parameter (codes "match_header")
    then header_rules (at_least_two args)
    else if str_eq parameter (codes "match_path")
    then path_rules (one args)
    else []

unfoldable pub rules_of : List Segment → List RuleMatcher
rules_of [] = []
rules_of (s ∷ ss) = rule_of s ++ rules_of ss

module _ (tools : Tools) where
  record Keeps (c d : Config) : Type 0 where
    raws : d.rule_matchers_raws ≡ c.rule_matchers_raws
    rules : d.rule_matchers ≡ c.rule_matchers

  set_field-Keeps :
      (parameter : Str) (args : List Str) (c d : Config)
      → set_field tools parameter args c ≡ some d
      → Keeps c d
  unfolding set_field
  set_field-Keeps parameter args c d p = record {
    raws = ground (arith, p);
    rules = ground (arith, p);
  }

  -- The rules that the raw ones of u read back as.
  record Reads (u : Unmarshalled) (ms : List RuleMatcher) : Type 0 where
    read : provision_rules tools u.config.rule_matchers_raws [] ≡ some ms
    fresh : u.config.rule_matchers ≡ []

  provision_rules-append :
      (rs : List RuleMatcherRaw) (r : RuleMatcherRaw) (acc : List RuleMatcher)
      → provision_rules tools (rs ++ r ∷ []) acc
        ≡ provision_rules tools rs acc >>= provision_rule tools r
  unfolding provision_rules
  provision_rules-append [] r acc = elim (Option-cases (provision_rule tools r acc)) [
    | inl p ↦ rw p refl
    | inr (ms, p) ↦ rw p refl
  ]
  provision_rules-append (x ∷ rs) r acc = elim (Option-cases (provision_rule tools x acc)) [
    | inl p ↦ rw p refl
    | inr (ms, p) ↦ rw p (provision_rules-append rs r ms)
  ]

  provision_rule-header :
      (h : Str) (vs : List Str) (ms : List RuleMatcher)
      → IsFaithful tools
      → provision_rule tools (raw tools matcher_type_header (header_rule h vs)) ms
        ≡ some (ms ++ header_rule h vs ∷ [])
  unfolding provision_rule str_eq
  provision_rule-header h vs ms f = rw (f.header h vs) refl

  provision_rule-path :
      (q : Str) (ms : List RuleMatcher)
      → IsFaithful tools
      → provision_rule tools (raw tools matcher_type_path (path_rule q)) ms
        ≡ some (ms ++ path_rule q ∷ [])
  unfolding provision_rule str_eq
  provision_rule-path q ms f = rw (f.path q) refl

  added-Reads :
      (u : Unmarshalled) (ms : List RuleMatcher) (kind : Str) (m : RuleMatcher) (v : Unmarshalled)
      → provision_rule tools (raw tools kind m) ms ≡ some (ms ++ m ∷ [])
      → Reads u ms
      → some (add_raw tools u (raw tools kind m)) ≡ some v
      → Reads v (ms ++ m ∷ [])
  added-Reads u ms kind m v reads r p =
      subst (λ w. Reads w (ms ++ m ∷ [])) (Option.some_inj.0 p)
        (record {
          read =
              rw (provision_rules-append u.config.rule_matchers_raws (raw tools kind m) [], r.read)
                reads;
          fresh = r.fresh;
        })

  header_case :
      (u : Unmarshalled) (ms : List RuleMatcher) (a : Option (Str × List Str)) (v : Unmarshalled)
      → IsFaithful tools
      → Reads u ms
      → (a >>= λ (h, vs). some (add_raw tools u (raw tools matcher_type_header (header_rule h vs))))
        ≡ some v
      → Reads v (ms ++ header_rules a)
  header_case u ms none v f r p = absurd (Option.some-ne-none _ (sym p))
  header_case u ms (some (h, vs)) v f r p =
      added-Reads u ms matcher_type_header (header_rule h vs) v (provision_rule-header h vs ms f) r
        p

  path_case :
      (u : Unmarshalled) (ms : List RuleMatcher) (a : Option Str) (v : Unmarshalled)
      → IsFaithful tools
      → Reads u ms
      → (a >>= λ q. some (add_raw tools u (raw tools matcher_type_path (path_rule q)))) ≡ some v
      → Reads v (ms ++ path_rules a)
  path_case u ms none v f r p = absurd (Option.some-ne-none _ (sym p))
  path_case u ms (some q) v f r p =
      added-Reads u ms matcher_type_path (path_rule q) v (provision_rule-path q ms f) r p

  kept-Reads :
      (u v : Unmarshalled) (ms : List RuleMatcher)
      → Reads u ms
      → Keeps u.config v.config
      → Reads v (ms ++ [])
  kept-Reads u v ms r k = record {
    read = rw (k.raws) (r.read ∙ ap some (sym (append-nil ms)));
    fresh = k.rules ∙ r.fresh;
  }

  distributed_case :
      (u v : Unmarshalled) (a : Option Str)
      → (a >>= λ q.
          tools.distributed_module q >>= λ d. some (record u { distributed_raw = some d }))
        ≡ some v
      → Keeps u.config v.config
  distributed_case u v a p = record { raws = ground (arith, p); rules = ground (arith, p) }

  field_case :
      (u v : Unmarshalled) (c : Option Config)
      → ((d : Config) → c ≡ some d → Keeps u.config d)
      → (c >>= λ d. some (with_config u d)) ≡ some v
      → Keeps u.config v.config
  field_case u v none k p = absurd (Option.some-ne-none _ (sym p))
  field_case u v (some d) k p =
      subst (λ w. Keeps u.config w.config) (Option.some_inj.0 p) (k d refl)

  apply_segment-Reads :
      (s : Segment) (u v : Unmarshalled) (ms : List RuleMatcher)
      → IsFaithful tools
      → Reads u ms
      → apply_segment tools s u ≡ some v
      → Reads v (ms ++ rule_of s)
  unfolding apply_segment rule_of
  apply_segment-Reads (parameter, args) u v ms f r p =
      elim (Bool-cases (str_eq parameter (codes "match_header"))) [
        | inl h ↦ rw h (header_case u ms (at_least_two args) v f r (rw h at p))
        | inr h ↦ elim (Bool-cases (str_eq parameter (codes "match_path"))) [
          | inl q ↦ rw (h, q) (path_case u ms (one args) v f r (rw (h, q) at p))
          | inr q ↦
              rw (h, q)
                (kept-Reads u v ms r (elim (Bool-cases (str_eq parameter (codes "distributed"))) [
                  | inl d ↦ distributed_case u v (one args) (rw (h, q, d) at p)
                  | inr d ↦
                      field_case u v (set_field tools parameter args u.config)
                        (λ c k. set_field-Keeps parameter args u.config c k) (rw (h, q, d) at p)
                ]))
        ]
      ]

  apply_segments-Reads :
      (ss : List Segment) (u v : Unmarshalled) (ms : List RuleMatcher)
      → IsFaithful tools
      → Reads u ms
      → apply_segments tools ss u ≡ some v
      → Reads v (ms ++ rules_of ss)
  unfolding apply_segments rules_of
  apply_segments-Reads [] u v ms f r p =
      subst (λ w. Reads w (ms ++ [])) (Option.some_inj.0 p)
        (kept-Reads u u ms r (record { raws = refl; rules = refl }))
  apply_segments-Reads (s ∷ ss) u v ms f r p = elim (Option-cases (apply_segment tools s u)) [
    | inl n ↦ absurd (Option.some-ne-none _ (sym (rw n at p)))
    | inr (w, e) ↦
        subst (λ xs. Reads v xs) (append_assoc ms (rule_of s) (rules_of ss))
          (apply_segments-Reads ss w v (ms ++ rule_of s) f (apply_segment-Reads s u w ms f r e)
            (rw e at p))
  ]

  -- If the JSON of a rule reads back as the rule and a block is accepted, then the provisioning of
  -- the rules succeeds, and gives exactly the rules of the block, in its order.
  pub rules_roundtrip :
      (ss : List Segment) (u : Unmarshalled)
      → IsFaithful tools
      → unmarshal_caddyfile tools ss ≡ some u
      → provision_rule_matchers tools u.config
        ≡ some (record u.config { rule_matchers = rules_of ss })
  unfolding unmarshal_caddyfile provision_rule_matchers
  rules_roundtrip ss u f p =
      let r =
        apply_segments-Reads ss (record { config = get_default_config; distributed_raw = none }) u
          [] f begins p in
      rw (r.fresh, r.read) refl
    where
      begins : Reads (record { config = get_default_config; distributed_raw = none }) []
      begins = unfold get_default_config provision_rules in record { read = refl; fresh = refl }
