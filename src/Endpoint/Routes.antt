-- ===== src/Endpoint/Routes.antt =====
-- Routes of endpoint.go, and the mux of net/http that the admin server of Caddy hands them to: a
-- pattern that ends in a slash matches what begins with it, another one only itself, and the longest
-- pattern that matches wins.
use cdp_cache.Base.{
  ◌≡◌, refl, Bool, true, false, Option, none, some, List, [], ◌∷◌, ◌++◌, length, ltb, if◌then◌else◌,
  ◌&&◌, not, Bool-cases, inl, inr,
}
use cdp_cache.Base.Text.{Str, codes, str_eq, str_eq_refl, has_prefix, has_suffix}
use cdp_cache.Storage.{clean}
use cdp_cache.Http.{Writer, write_status, write_body}

pub data Route : Type 0 where
  health_route purge_route caches_route : Route

-- Routes
unfoldable pub routes : List (Str × Route)
routes =
    (codes "/health", health_route)
    ∷ (codes "/caches/purge", purge_route)
    ∷ (codes "/caches/", caches_route)
    ∷ []

-- health
unfoldable pub health : Writer → Writer
health w = write_body (write_status w 200) (codes "OK")

unfoldable fits : Str → Str → Bool
fits pattern path =
    if has_suffix pattern (codes "/") then has_prefix path pattern else str_eq pattern path

abbrev longer : Str × Route → Option (Str × Route) → Str × Route
longer p none = p
longer (s, r) (some (t, q)) = if ltb (length t) (length s) then (s, r) else (t, q)

-- The pattern that wins, with its route.
unfoldable pub mux : List (Str × Route) → Str → Option (Str × Route)
unfolding fits
mux [] path = none
mux ((pattern, r) ∷ rs) path =
    let rest = mux rs path in if fits pattern path then some (longer (pattern, r) rest) else rest

health_does_not_fit : (key : Str) → fits (codes "/health") (codes "/caches/" ++ key) ≡ false
unfolding fits has_suffix has_prefix str_eq
health_does_not_fit key = refl

purge_fits :
    (key : Str)
    → fits (codes "/caches/purge") (codes "/caches/" ++ key) ≡ str_eq (codes "purge") key
unfolding fits has_suffix has_prefix str_eq
purge_fits key = refl

caches_fits : (key : Str) → fits (codes "/caches/") (codes "/caches/" ++ key) ≡ true
unfolding fits has_suffix has_prefix
caches_fits key = refl

-- cleanPath of net/http.
unfoldable pub clean_path : Str → Str
unfolding clean
clean_path path =
    let rooted = if has_prefix path (codes "/") then path else codes "/" ++ path in
    let cleaned = clean rooted in
    if has_suffix rooted (codes "/") && not (str_eq cleaned (codes "/"))
    then cleaned ++ codes "/"
    else cleaned

-- What the mux does with a request: it sends it to another path, or to a handler.
pub data Routed : Type 0 where
  redirected : Str → Routed
  routed : Route → Routed
  not_found : Routed

abbrev pub to_handler : Str → Option (Str × Route) → Routed
to_handler path (some (pattern, r)) = routed r
to_handler path none =
    if str_eq path (codes "/caches") then redirected (codes "/caches/") else not_found

-- The mux: a path that is not clean is redirected to the clean one, and "/caches" to "/caches/".
unfoldable pub route : Str → Routed
unfolding clean_path mux routes
route path =
    if str_eq (clean_path path) path
    then to_handler path (mux routes path)
    else redirected (clean_path path)

-- A clean path below /caches/ is for one entry, or for the list if nothing follows, unless exactly
-- "purge" follows: that is the purge, so that no entry with the key "purge" can be shown.
pub route-caches :
    (key : Str)
    → clean_path (codes "/caches/" ++ key) ≡ codes "/caches/" ++ key
    → route (codes "/caches/" ++ key)
      ≡ routed (if str_eq (codes "purge") key then purge_route else caches_route)
unfolding route mux routes
route-caches key cleaned =
    rw (cleaned, str_eq_refl (codes "/caches/" ++ key))
      (rw (health_does_not_fit key, purge_fits key, caches_fits key)
        (elim (Bool-cases (str_eq (codes "purge") key)) [
          | inl hit ↦ rw hit refl
          | inr miss ↦ rw miss refl
        ]))
