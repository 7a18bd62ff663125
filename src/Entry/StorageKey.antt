-- ===== src/Entry/StorageKey.antt =====
-- keyWithRespectVary of cache.go: the key under which the shared storages (groupcache, redis) keep
-- the body of an entry.
use cdp_cache.Base.{
  ℕ, ◌/◌, ◌%◌, ◌<◌, ◌≡◌, ◌≢◌, refl, sym, ap, ◌∙◌, inl, inr, true, false, [], ◌∷◌, ◌++◌, arith, All,
  Bool-cases, append-nil,
}
use cdp_cache.Base.Text.{Str, codes}
use cdp_cache.Base.Split.{Lacks, split_byte-Lacks, split_byte-at}
use cdp_cache.Base.Assoc.{lookup-Avoids, Avoids}
use cdp_cache.Header.{Header, canonical_key, get}
use cdp_cache.Entry.{Entry, hex_digit, is_unreserved, path_escape, key_with_respect_vary}

abbrev pub IsBytes : Str → Type 0
IsBytes = All (λ c. c < 256)

hex_digit_injective : (a b : ℕ) → a < 16 → b < 16 → hex_digit a ≡ hex_digit b → a ≡ b
unfolding hex_digit
hex_digit_injective a b h k e = ground arith

percent_is_reserved : (c : ℕ) → is_unreserved c ≡ true → c ≢ b'%'
unfolding is_unreserved
percent_is_reserved c h e = ground (arith, e)

kept_byte : (c : ℕ) (s : Str) → is_unreserved c ≡ true → path_escape (c ∷ s) ≡ c ∷ path_escape s
unfolding path_escape
kept_byte c s h = rw h

escaped_byte :
    (c : ℕ) (s : Str)
    → is_unreserved c ≡ false
    → path_escape (c ∷ s) ≡ b'%' ∷ hex_digit (c / 16) ∷ hex_digit (c % 16) ∷ path_escape s
unfolding path_escape
escaped_byte c s h = rw h

byte_of_digits : (c d : ℕ) → c < 256 → d < 256 → c / 16 ≡ d / 16 → c % 16 ≡ d % 16 → c ≡ d
byte_of_digits c d h k p q = omega arith

path_escape-nonempty : (c : ℕ) (s : Str) → path_escape (c ∷ s) ≢ []
path_escape-nonempty c s e = elim (Bool-cases (is_unreserved c)) [
  | inl k ↦ ground (arith, kept_byte c s k)
  | inr k ↦ ground (arith, escaped_byte c s k)
]

-- Escaping a path segment loses nothing.
pub path_escape_injective :
    (s t : Str) → IsBytes s → IsBytes t → path_escape s ≡ path_escape t → s ≡ t
path_escape_injective [] [] h k e = refl
path_escape_injective [] (d ∷ t) h k e = absurd (path_escape-nonempty d t (sym e ∙ nil))
  where
    nil : path_escape [] ≡ []
    nil = unfold path_escape in refl
path_escape_injective (c ∷ s) [] h k e = absurd (path_escape-nonempty c s (e ∙ nil))
  where
    nil : path_escape [] ≡ []
    nil = unfold path_escape in refl
path_escape_injective (c ∷ s) (d ∷ t) (h, hs) (k, ks) e =
    let ih = path_escape_injective s t hs ks in
    elim (Bool-cases (is_unreserved c)) [
      | inl p ↦ elim (Bool-cases (is_unreserved d)) [
        | inl q ↦ let f = sym (kept_byte c s p) ∙ e ∙ kept_byte d t q in ground (arith, ih)
        | inr q ↦
            let f = sym (kept_byte c s p) ∙ e ∙ escaped_byte d t q in
            absurd (ground (arith, percent_is_reserved c p))
      ]
      | inr p ↦ elim (Bool-cases (is_unreserved d)) [
        | inl q ↦
            let f = sym (escaped_byte c s p) ∙ e ∙ kept_byte d t q in
            absurd (ground (arith, percent_is_reserved d q))
        | inr q ↦
            let f = sym (escaped_byte c s p) ∙ e ∙ escaped_byte d t q in
            ground (
              arith,
              ih,
              hex_digit_injective (c / 16) (d / 16),
              hex_digit_injective (c % 16) (d % 16),
              byte_of_digits c d h k,
            )
      ]
    ]

-- No header name begins with a space, as net/http ensures of a parsed request.
get-spaced : (h : Header) (m : Str) → Avoids (b' ' ∷ m) h → get h (b' ' ∷ m) ≡ []
unfolding get canonical_key
get-spaced h m a = rw (lookup-Avoids (b' ' ∷ m) h a)

abbrev pub comma_space : Str → Str → Str
comma_space n m = n ++ b',' ∷ b' ' ∷ m

key-comma_space :
    (e : Entry) (n m : Str)
    → Lacks b',' n
    → Lacks b',' m
    → get e.snap_header (codes "Vary") ≡ comma_space n m
    → Avoids (b' ' ∷ m) e.request.header
    → key_with_respect_vary e ≡ path_escape (e.key ++ get e.request.header n)
unfolding key_with_respect_vary
key-comma_space e n m hn hm v a =
    rw (v, split_byte-at n (b' ' ∷ m) b',' hn)
      (rw (split_byte-Lacks (b' ' ∷ m) b',' ((λ q. omega arith), hm))
        (rw (get-spaced e.request.header m a, append-nil)))

-- Two entries of one cache key whose responses both say "Vary: n, m", and whose requests have no
-- header whose name begins with a space before m, have one storage key as soon as their requests
-- agree on n, whatever they say for m.
pub second_vary_name_ignored :
    (e f : Entry) (n m : Str)
    → e.key ≡ f.key
    → Lacks b',' n
    → Lacks b',' m
    → get e.snap_header (codes "Vary") ≡ comma_space n m
    → get f.snap_header (codes "Vary") ≡ comma_space n m
    → Avoids (b' ' ∷ m) e.request.header
    → Avoids (b' ' ∷ m) f.request.header
    → get e.request.header n ≡ get f.request.header n
    → key_with_respect_vary e ≡ key_with_respect_vary f
second_vary_name_ignored e f n m k hn hm v w a b g =
    rw (key-comma_space e n m hn hm v a, key-comma_space f n m hn hm w b, k, g)

append-cancel_left : (s t u : Str) → s ++ t ≡ s ++ u → t ≡ u
append-cancel_left [] t u e = e
append-cancel_left (x ∷ s) t u e = append-cancel_left s t u (cc)

key-single :
    (e : Entry) (n : Str)
    → Lacks b',' n
    → get e.snap_header (codes "Vary") ≡ n
    → key_with_respect_vary e ≡ path_escape (e.key ++ get e.request.header n)
unfolding key_with_respect_vary
key-single e n h v = rw (v, split_byte-Lacks n b',' h, append-nil)

-- Where the responses vary on one name, which has no comma, entries of one cache key whose requests
-- differ in its value have different storage keys, if keys and values are strings of bytes.
pub single_vary_name_separates :
    (e f : Entry) (n : Str)
    → e.key ≡ f.key
    → Lacks b',' n
    → get e.snap_header (codes "Vary") ≡ n
    → get f.snap_header (codes "Vary") ≡ n
    → IsBytes (e.key ++ get e.request.header n)
    → IsBytes (f.key ++ get f.request.header n)
    → get e.request.header n ≢ get f.request.header n
    → key_with_respect_vary e ≢ key_with_respect_vary f
single_vary_name_separates e f n k h v w be bf differ same = differ (
    append-cancel_left e.key _ _ (
      path_escape_injective _ _ be bf (sym (key-single e n h v) ∙ same ∙ key-single f n h w)
      ∙ ap (λ s. s ++ get f.request.header n) (sym k)))

key-plain :
    (e : Entry)
    → get e.snap_header (codes "Vary") ≡ []
    → Avoids [] e.request.header
    → key_with_respect_vary e ≡ path_escape e.key
key-plain e v a = key-single e [] tt v ∙ rw (nameless, append-nil)
  where
    nameless : get e.request.header [] ≡ []
    nameless = unfold get canonical_key in rw (lookup-Avoids [] e.request.header a)

-- Entries that do not vary, whose requests have no header with an empty name, have different
-- storage keys if their cache keys, strings of bytes, differ.
pub plain_keys_separate :
    (e f : Entry)
    → get e.snap_header (codes "Vary") ≡ []
    → get f.snap_header (codes "Vary") ≡ []
    → Avoids [] e.request.header
    → Avoids [] f.request.header
    → IsBytes e.key
    → IsBytes f.key
    → e.key ≢ f.key
    → key_with_respect_vary e ≢ key_with_respect_vary f
plain_keys_separate e f v w a b be bf differ same =
    differ
      (path_escape_injective e.key f.key be bf (sym (key-plain e v a) ∙ same ∙ key-plain f w b))
