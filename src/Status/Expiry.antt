-- ===== src/Status/Expiry.antt =====
-- The expiration that getCacheStatus of cache.go gives to a public response.
use cdp_cache.Base.{
  ℕ, suc, ◌*◌, ◌≡◌, sym, ap, ◌∙◌, ◌⊎◌, inl, inr, true, false, Option, some, arith, Option-cases,
}
use cdp_cache.Base.Int.{
  ℤ, pos, negsuc, ◌+ℤ◌, ◌-ℤ◌, ◌≤ℤ◌, ◌<ℤ◌, ltb_ℤ, +ℤ_parts, -ℤ_parts, ltb_ℤ→lt, ltb_ℤ→ge, pos_part,
  neg_part,
}
use cdp_cache.Header.{Header}
use cdp_cache.Http.{Request}
use cdp_cache.Config.{Config, second}
use cdp_cache.Status.{
  CacheControl, Judged, Clock, seconds, is_given, expiration_object, judge, get_cache_status,
}

-- The clock does not go back.
abbrev pub IsMonotone : Clock → Type 0
IsMonotone clock = (n : ℕ) → clock n ≤ℤ clock (suc n)

module _ (cc : CacheControl) (req : Request) (code : ℕ) (snap : Header) (config : Config)
    (clock : Clock) where
  abbrev pub judgement : Option (Judged cc.ReqDirectives cc.RespDirectives)
  judgement = judge cc (some req) code snap false (clock 0)

  -- A public answer comes from a judgement, and is its expiration unless that has run out.
  public_cases :
      {t : ℤ}
      → get_cache_status cc req code snap config clock ≡ (true, t)
      → (j : Judged cc.ReqDirectives cc.RespDirectives) × (judgement ≡ some j)
        × (((ltb_ℤ (j.expiration -ℤ pos second) (clock 1) ≡ true)
              × (t ≡ clock 2 +ℤ config.default_max_age))
            ⊎ ((ltb_ℤ (j.expiration -ℤ pos second) (clock 1) ≡ false) × (t ≡ j.expiration)))
  unfolding get_cache_status
  public_cases {t} h = elim (Option-cases judgement) [
    | inl e ↦ absurd (ground (arith, e))
    | inr (j, e) ↦ (j, e, ground (arith, e))
  ]

  same_expiration :
      {i j : Judged cc.ReqDirectives cc.RespDirectives}
      → judgement ≡ some i
      → judgement ≡ some j
      → i.expiration ≡ j.expiration
  same_expiration {i} {j} e f = let same : some i ≡ some j = sym e ∙ f in ground arith

  -- If the clock does not go back and default_max_age is positive, a public response has not
  -- expired at the time at which the function compared its expiration with the clock.
  pub get_cache_status_fresh :
      {t : ℤ}
      → IsMonotone clock
      → pos 0 <ℤ config.default_max_age
      → get_cache_status cc req code snap config clock ≡ (true, t)
      → clock 1 <ℤ t
  get_cache_status_fresh {t} mono age h =
      let (j, e, late_or_early) = public_cases h in
      elim late_or_early [
        | inl (late, q) ↦ rw q (omega (arith, mono 1, +ℤ_parts (clock 2) config.default_max_age))
        | inr (early, q) ↦ rw q (
            omega (
              arith,
              ltb_ℤ→ge (j.expiration -ℤ pos second) (clock 1) early,
              -ℤ_parts j.expiration (pos second),
            ))
      ]

  judge-expiration :
      (j : Judged cc.ReqDirectives cc.RespDirectives)
      → judgement ≡ some j
      → (j.expiration ≡ expiration_object cc j.object)
        × (j.object.now_utc ≡ clock 0)
        × (j.object.cache_is_private ≡ false)
  unfolding judge
  judge-expiration j e = ground arith

  -- The upstream forbids reuse by an explicit age of 0, and says nothing by s-maxage.
  pub record HasZeroAge (j : Judged cc.ReqDirectives cc.RespDirectives) : Type 0 where
    pub no_s_max_age : cc.s_max_age j.object.resp_directives ≡ negsuc 0
    pub zero_age : cc.max_age j.object.resp_directives ≡ pos 0

  zero_age-expiration :
      (j : Judged cc.ReqDirectives cc.RespDirectives)
      → judgement ≡ some j
      → HasZeroAge j
      → j.expiration ≡ clock 0 +ℤ pos 0
  unfolding expiration_object is_given seconds
  zero_age-expiration j e z =
      let (x, n, p) = judge-expiration j e in x ∙ ground (arith, n, p, z.no_s_max_age, z.zero_age)

  -- If the clock does not go back, a public response that is judged to have the explicit age 0 is
  -- not expired at once: it is kept for default_max_age from the last reading of the clock.
  pub zero_age_gets_default :
      {t : ℤ} (j : Judged cc.ReqDirectives cc.RespDirectives)
      → IsMonotone clock
      → judgement ≡ some j
      → HasZeroAge j
      → get_cache_status cc req code snap config clock ≡ (true, t)
      → t ≡ clock 2 +ℤ config.default_max_age
  zero_age_gets_default {t} j mono e z h =
      let (i, e', late_or_early) = public_cases h in
      elim late_or_early [
        | inl (late, q) ↦ q
        | inr (early, q) ↦ absurd (
            omega (
              arith,
              mono 0,
              ltb_ℤ→ge (i.expiration -ℤ pos second) (clock 1) early,
              -ℤ_parts i.expiration (pos second),
              +ℤ_parts (clock 0) (pos 0),
              ap pos_part (same_expiration e' e ∙ zero_age-expiration j e z),
              ap neg_part (same_expiration e' e ∙ zero_age-expiration j e z),
            ))
      ]

  s_max_age-expiration :
      (j : Judged cc.ReqDirectives cc.RespDirectives) (n : ℕ)
      → judgement ≡ some j
      → cc.s_max_age j.object.resp_directives ≡ pos n
      → j.expiration ≡ clock 0 +ℤ pos (n * second)
  unfolding expiration_object is_given seconds
  s_max_age-expiration j n e s =
      let (x, now, shared) = judge-expiration j e in x ∙ ground (arith, now, shared, s)

  -- A public response with s-maxage=n expires n seconds after the judgement, whatever max-age and
  -- Expires say, if the clock has then moved on by no more than n - 1 seconds.
  pub s_max_age_wins :
      {t : ℤ} (j : Judged cc.ReqDirectives cc.RespDirectives) (n : ℕ)
      → judgement ≡ some j
      → cc.s_max_age j.object.resp_directives ≡ pos n
      → clock 1 +ℤ pos second ≤ℤ clock 0 +ℤ pos (n * second)
      → get_cache_status cc req code snap config clock ≡ (true, t)
      → t ≡ clock 0 +ℤ pos (n * second)
  s_max_age_wins {t} j n e s soon h =
      let (i, e', late_or_early) = public_cases h in
      elim late_or_early [
        | inl (late, q) ↦ absurd (
            omega (
              arith,
              ltb_ℤ→lt (i.expiration -ℤ pos second) (clock 1) late,
              -ℤ_parts i.expiration (pos second),
              +ℤ_parts (clock 1) (pos second),
              +ℤ_parts (clock 0) (pos (n * second)),
              ap pos_part (same_expiration e' e ∙ s_max_age-expiration j n e s),
              ap neg_part (same_expiration e' e ∙ s_max_age-expiration j n e s),
            ))
        | inr (early, q) ↦ q ∙ same_expiration e' e ∙ s_max_age-expiration j n e s
      ]
