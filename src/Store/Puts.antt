-- ===== src/Store/Puts.antt =====
-- Several Puts of cache.go, one after the other, with the tasks that they start.
use cdp_cache.Base.{
  ◌≡◌, refl, inl, inr, Option, some, List, [], ◌∷◌, ◌++◌, arith, Option-cases, All,
}
use cdp_cache.Config.{Config}
use cdp_cache.Entry.{Entry}
use cdp_cache.Store.{HttpCache, ◌>>=◌, Task, put}

abbrev pub Cached : Type 0
Cached = HttpCache × List Task

unfoldable pub put_all : Config → List Entry → Cached → Option Cached
put_all config [] c = some c
put_all config (e ∷ es) c = put c.0 e config >>= λ r. put_all config es (r.0, c.1 ++ r.1)

pub put_all-snoc :
    (config : Config) (es : List Entry) (e : Entry) (c d : Cached) {g : HttpCache} {ts : List Task}
    → put_all config es c ≡ some d
    → put d.0 e config ≡ some (g, ts)
    → put_all config (es ++ e ∷ []) c ≡ some (g, d.1 ++ ts)
unfolding put_all
put_all-snoc config [] e c d p q = let same : c ≡ d = ground (arith, p) in rw (same, q) refl
put_all-snoc config (x ∷ es) e c d p q = elim (Option-cases (put c.0 x config)) [
  | inl n ↦ absurd (ground (arith, p, n))
  | inr (r, m) ↦
      let rest : put_all config es (r.0, c.1 ++ r.1) ≡ some d = ground (arith, p, m) in
      rw m (put_all-snoc config es e (r.0, c.1 ++ r.1) d rest q)
]

pub All-snoc {ℓ κ} :
    {A : Type ℓ} (P : A → Type κ) (xs : List A) {x : A} → All P xs → P x → All P (xs ++ x ∷ [])
All-snoc P [] a p = (p, tt)
All-snoc P (y ∷ ys) (q, a) p = (q, All-snoc P ys a p)
