-- ===== src/Status/Public.antt =====
-- When getCacheStatus of cache.go declares a response public.
use cdp_cache.Base.{
  ℕ, ◌≡◌, refl, ◌≢◌, ◌↔◌, inl, inr, true, false, none, some, List, [], ◌∷◌, arith, All,
  Option-cases,
}
use cdp_cache.Base.Int.{ℤ}
use cdp_cache.Base.Text.{Str, codes, str_eq_iff}
use cdp_cache.Header
use cdp_cache.Header.{Header}
use cdp_cache.Http.{Request}
use cdp_cache.Rule.{RuleMatcher, matches}
use cdp_cache.Config.{Config}
use cdp_cache.Status.{
  CacheControl, Judged, Clock, judge, all_match, after_judgement, get_cache_status,
}

abbrev pub AllMatch : List RuleMatcher → Request → ℕ → Header → Type 0
AllMatch rules req code h = All (λ r. matches r req code h ≡ true) rules

all_match_iff :
    (rules : List RuleMatcher) (req : Request) (code : ℕ) (h : Header)
    → (all_match rules req code h ≡ true) ↔ AllMatch rules req code h
unfolding all_match
all_match_iff [] req code h = ((λ _. tt), λ _. refl)
all_match_iff (r ∷ rules) req code h =
    let (to, from) = all_match_iff rules req code h in
    ((λ e. (ground arith, to (ground arith))), λ a. ground (arith, a.0, from a.1))

module _ (cc : CacheControl) where
  -- The response is complete, is judged cacheable with no reason against it, does not vary on
  -- everything, and passes every rule.
  pub record IsCacheable (req : Request) (code : ℕ) (snap : Header) (config : Config) (now : ℤ)
      : Type 0 where
    pub not_partial : code ≢ 206
    pub no_range : Header.get snap (codes "Content-Range") ≡ []
    pub modified : code ≢ 304
    pub no_reason :
        (j : Judged cc.ReqDirectives cc.RespDirectives) × (judge cc (some req) code snap false now
          ≡ some j)
        × (j.reasons ≡ [])
    pub vary_some : Header.get snap (codes "Vary") ≢ codes "*"
    pub rules : AllMatch config.rule_matchers req code snap

  after_judgement-public :
      (j : Judged cc.ReqDirectives cc.RespDirectives) (req : Request) (code : ℕ) (snap : Header)
      (config : Config) (clock : Clock)
      → (after_judgement cc (some j) req code snap config clock).0 ≡ true
      → (j.reasons ≡ [])
        × (Header.get snap (codes "Vary") ≢ codes "*")
        × (all_match config.rule_matchers req code snap ≡ true)
  unfolding after_judgement
  after_judgement-public j req code snap config clock h = (
    ground arith,
    (λ e. ground (arith, e, (str_eq_iff (Header.get snap (codes "Vary")) (codes "*")).1 e)),
    ground arith,
  )

  after_judgement-failed :
      (req : Request) (code : ℕ) (snap : Header) (config : Config) (clock : Clock)
      → (after_judgement cc none req code snap config clock).0 ≡ true
      → ⊥
  unfolding after_judgement
  after_judgement-failed req code snap config clock h = ground arith

  -- A response is public exactly when it is complete (no 206 and no Content-Range), is no 304,
  -- the judgement of cachecontrol fails nowhere and has no reason against caching it, its Vary is
  -- not "*", and every rule of the configuration matches it.
  pub get_cache_status_public_iff :
      (req : Request) (code : ℕ) (snap : Header) (config : Config) (clock : Clock)
      → ((get_cache_status cc req code snap config clock).0 ≡ true)
        ↔ IsCacheable req code snap config (clock 0)
  unfolding get_cache_status
  get_cache_status_public_iff req code snap config clock = (to, from)
    where
      range : Str
      range = Header.get snap (codes "Content-Range")

      past_guards :
          (get_cache_status cc req code snap config clock).0 ≡ true
          → (code ≢ 206)
            × (range ≡ [])
            × (code ≢ 304)
            × ((after_judgement cc
                  (judge cc (some req) code snap false (clock 0))
                  req
                  code
                  snap
                  config
                  clock).0
                ≡ true)
      past_guards h =
          (ground arith, ground (arith, str_eq_iff range []), ground arith, ground arith)

      to :
          (get_cache_status cc req code snap config clock).0 ≡ true
          → IsCacheable req code snap config (clock 0)
      to h =
          let (p, r, m, d) = past_guards h in
          elim (Option-cases (judge cc (some req) code snap false (clock 0))) [
            | inl e ↦ absurd (after_judgement-failed req code snap config clock (rw e at d))
            | inr (j, e) ↦
                let (empty, vary, rules) =
                  after_judgement-public j req code snap config clock (rw e at d) in
                record {
                  not_partial = p;
                  no_range = r;
                  modified = m;
                  no_reason = (j, e, empty);
                  vary_some = vary;
                  rules = (all_match_iff config.rule_matchers req code snap).0 rules;
                }
          ]

      from :
          IsCacheable req code snap config (clock 0)
          → (get_cache_status cc req code snap config clock).0 ≡ true
      from c =
          let (j, e, empty) = c.no_reason in
          rw e (
            ground (
              arith,
              c.no_range,
              empty,
              str_eq_iff range [],
              str_eq_iff (Header.get snap (codes "Vary")) (codes "*"),
              (all_match_iff config.rule_matchers req code snap).1 c.rules,
            ))
