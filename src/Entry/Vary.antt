-- ===== src/Entry/Vary.antt =====
-- matchVary of cache.go.
use cdp_cache.Base.{◌≡◌, refl, ◌↔◌, true, List, [], ◌∷◌, arith, All}
use cdp_cache.Base.Text.{Str, codes, str_eq_iff, str_eq_refl, split_byte, pieces_list, trim_space}
use cdp_cache.Header
use cdp_cache.Header.{Header}
use cdp_cache.Http.{Request}
use cdp_cache.Entry.{Entry, same_headers, match_vary}

-- Two headers have the same first value under each of the names.
abbrev pub AgreeOn : List Str → Header → Header → Type 0
AgreeOn names cur old =
    All (λ n. Header.get cur (trim_space n) ≡ Header.get old (trim_space n)) names

-- The names that the response lists in its Vary header.
abbrev pub vary_names : Entry → List Str
vary_names e = pieces_list (split_byte (Header.get e.header_map (codes "Vary")) b',')

pub same_headers_iff :
    (names : List Str) (cur old : Header)
    → (same_headers names cur old ≡ true) ↔ AgreeOn names cur old
unfolding same_headers
same_headers_iff [] cur old = ((λ _. tt), λ _. refl)
same_headers_iff (n ∷ names) cur old =
    let (to, from) = same_headers_iff names cur old in
    let same = str_eq_iff (Header.get cur (trim_space n)) (Header.get old (trim_space n)) in
    ((λ h. (same.0 (ground arith), to (ground arith))), λ a. ground (arith, same.1 a.0, from a.1))

-- A request matches an entry exactly when it agrees with the entry's own request on every header
-- that the stored response names in Vary.
pub match_vary_iff :
    (cur : Request) (e : Entry)
    → (match_vary cur e ≡ true) ↔ AgreeOn (vary_names e) cur.header e.request.header
unfolding match_vary
match_vary_iff cur e = same_headers_iff (vary_names e) cur.header e.request.header

same_headers_refl : (names : List Str) (h : Header) → same_headers names h h ≡ true
unfolding same_headers
same_headers_refl [] h = refl
same_headers_refl (n ∷ names) h =
    rw (str_eq_refl (Header.get h (trim_space n))) (same_headers_refl names h)

-- An entry answers its own request.
pub match_vary_refl : (e : Entry) → match_vary e.request e ≡ true
unfolding match_vary
match_vary_refl e = same_headers_refl (vary_names e) e.request.header
