-- ===== src/Header/Tests.antt =====
-- Runs of the header functions, and the copy theorems at concrete headers.
use cdp_cache.Base.{◌≡◌, refl, [], ◌∷◌, some}
use cdp_cache.Base.Text.{codes, str_eq}
use cdp_cache.Base.Assoc.{lookup, insert}
use cdp_cache.Header.{Header, canonical_key, get, set, copy_headers}
use cdp_cache.Header.Copy.{lookup-copy_headers}

canonical_key_tests :
    (canonical_key (codes "content-TYPE") ≡ codes "Content-Type")
    × (canonical_key (codes " vary") ≡ codes " vary")
unfolding canonical_key
canonical_key_tests = (refl, refl)

abbrev cookies : Header
cookies = (codes "Set-Cookie", codes "a=1" ∷ codes "b=2" ∷ []) ∷ (codes "Etag", codes "x" ∷ []) ∷ []

get-set_test : get (set cookies (codes "etag") (codes "y")) (codes "ETAG") ≡ codes "y"
unfolding get set canonical_key lookup insert str_eq
get-set_test = refl

lookup-copy_headers_example :
    lookup (codes "Etag") (copy_headers cookies []) ≡ some (codes "x" ∷ [])
unfolding canonical_key lookup str_eq
lookup-copy_headers_example =
    lookup-copy_headers cookies [] (codes "Etag") (((λ e. cc), tt), (tt, tt)) (refl, (refl, tt))
