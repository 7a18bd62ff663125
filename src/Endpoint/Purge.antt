-- ===== src/Endpoint/Purge.antt =====
-- The endpoints of endpoint.go over the cache.
use mathlib.Core.Option
use cdp_cache.Base.{
  ◌≡◌, ◌≢◌, refl, sym, ◌∙◌, ap, drop, Bool, true, false, Option, none, some, List, [], ◌∷◌, ◌++◌,
  arith, Bool-cases, Option-cases, inl, inr,
}
use cdp_cache.Base.Text.{Str, codes, str_eq, str_eq_of_ne, str_eq_refl, index_byte}
use cdp_cache.Http.{Request}
use cdp_cache.Status.{Clock}
use cdp_cache.Store as Caches
use cdp_cache.Store.{HttpCache, keys}
use cdp_cache.Store.Cleaning.{Outside}
use cdp_cache.Store.Invariant.{IsValid}
use cdp_cache.Store.History.{del-IsValid}
use cdp_cache.Endpoint.Routes.{clean_path, route, routed, caches_route, route-caches}
use cdp_cache.Endpoint.{
  trim_by, shown_entry, handle_show_cache, handle_cache_endpoints, purge_keys, purge,
}

-- The path of a key.
abbrev pub path_of : Str → Str
path_of key = codes "/caches/" ++ key

trim_by-path_of : (key : Str) → trim_by (path_of key) b'/' 2 ≡ key
unfolding trim_by index_byte
trim_by-path_of key = refl

-- A GET for the path "/caches/" followed by a key that is neither empty nor "purge", where the path
-- is clean (the mux of net/http redirects any other), goes to handleCacheEndpoints, which answers
-- with what Get finds under exactly that key, slashes included.
pub show_round_trip :
    (h : HttpCache) (r : Request) (key : Str) (clock : Clock)
    → r.method ≡ codes "GET"
    → key ≢ []
    → key ≢ codes "purge"
    → clean_path (path_of key) ≡ path_of key
    → r.path ≡ path_of key
    → (route r.path ≡ routed caches_route)
      × (handle_cache_endpoints h r clock ≡ Option.map shown_entry (Caches.get h key r false clock))
unfolding handle_cache_endpoints handle_show_cache
show_round_trip h r key clock g n np cleaned p = (
  rw p
      (route-caches key cleaned ∙ rw (str_eq_of_ne (λ (e : codes "purge" ≡ key). np (sym e))) refl),
  rw (asked, str_eq_of_ne not_the_list, trimmed)
      (elim (Option-cases (Caches.get h key r false clock)) [
        | inl e ↦ rw e refl
        | inr (x, e) ↦ rw e refl
      ]),
)
  where
    asked : str_eq r.method (codes "GET") ≡ true
    asked = rw g (str_eq_refl (codes "GET"))

    not_the_list : r.path ≢ codes "/caches/"
    not_the_list e = n (ap (drop 8) (sym p ∙ e))

    trimmed : trim_by r.path b'/' 2 ≡ key
    trimmed = rw p (trim_by-path_of key)

purge_keys-IsValid :
    (o : Outside) (match : Str → Bool) (clock : Str → Clock) (ks : List Str) (h : HttpCache)
    → IsValid h
    → (g : HttpCache) × (e : Option Str) × (purge_keys o match clock ks h ≡ some (g, e)) × IsValid g
unfolding purge_keys
purge_keys-IsValid o match clock [] h v = (h, none, refl, v)
purge_keys-IsValid o match clock (k ∷ ks) h v =
    let next = λ (g : HttpCache) (w : IsValid g). purge_keys-IsValid o match clock ks g w in
    elim (Bool-cases (match k)) [
      | inl m ↦
          let (g, r, e, w) = del-IsValid o k (clock k) h v in
          elim (Option-cases r.1) [
            | inl fine ↦
                let (g', x, e', w') = next g w in (g', x, ground (arith, m, e, fine, e'), w')
            | inr (err, broken) ↦ (g, some err, ground (arith, m, e, broken), w)
          ]
      | inr m ↦ let (g, x, e, w) = next h v in (g, x, ground (arith, m, e), w)
    ]

-- Purge never panics on a valid cache, whatever it matches, and leaves a valid one.
pub purge-IsValid :
    (o : Outside) (match : Str → Bool) (clock : Str → Clock) (h : HttpCache)
    → IsValid h
    → (g : HttpCache) × (e : Option Str) × (purge o match clock h ≡ some (g, e)) × IsValid g
unfolding purge
purge-IsValid o match clock h v = purge_keys-IsValid o match clock (keys h) h v
