-- ===== src/Header/Copy.antt =====
-- What copyHeaders of response.go leaves in the target.
use cdp_cache.Base.{
  ◌≡◌, refl, ◌≢◌, ◌∙◌, subst, Option, none, some, List, [], ◌∷◌, arith, if◌then◌else◌, All,
  Bool-cases, inl, inr,
}
use cdp_cache.Base.Text.{Str, str_eq, str_eq_iff, str_eq_refl}
use cdp_cache.Base.Assoc.{lookup, lookup-insert, Avoids, HasDistinctKeys, lookup-Avoids}
use cdp_cache.Header.{Header, canonical_key, values, set, copy_values, copy_headers}

-- A header as net/http builds it: distinct names, all in canonical form.
abbrev pub HasCanonicalKeys : Header → Type 0
HasCanonicalKeys = All (λ p. canonical_key p.0 ≡ p.0)

-- The last of the values, alone; a name without values writes nothing.
abbrev pub last_alone : Option (List Str) → List Str → Option (List Str)
last_alone old [] = old
last_alone old (v ∷ []) = some (v ∷ [])
last_alone old (v ∷ w ∷ vs) = last_alone old (w ∷ vs)

-- What one name of the target holds after a copy, by what it held and what the source holds.
abbrev pub copied : Option (List Str) → Option (List Str) → Option (List Str)
copied old none = old
copied old (some vs) = last_alone old vs

lookup-set :
    (h : Header) (k j v : Str)
    → lookup j (set h k v) ≡ (if str_eq (canonical_key k) j then some (v ∷ []) else lookup j h)
unfolding set
lookup-set h k j v = lookup-insert (canonical_key k) j (v ∷ []) h

last_alone_irrelevant :
    (a b : Option (List Str)) (v : Str) (vs : List Str)
    → last_alone a (v ∷ vs) ≡ last_alone b (v ∷ vs)
last_alone_irrelevant a b v [] = refl
last_alone_irrelevant a b v (w ∷ vs) = last_alone_irrelevant a b w vs

lookup-copy_values_self :
    (k : Str) (vs : List Str) (to : Header)
    → canonical_key k ≡ k
    → lookup k (copy_values k vs to) ≡ last_alone (lookup k to) vs
unfolding copy_values
lookup-copy_values_self k [] to c = refl
lookup-copy_values_self k (v ∷ []) to c = rw (lookup-set to k k v, c, str_eq_refl k)
lookup-copy_values_self k (v ∷ w ∷ vs) to c =
    lookup-copy_values_self k (w ∷ vs) (set to k v) c ∙ last_alone_irrelevant _ _ w vs

lookup-copy_values_ne :
    (k j : Str) (vs : List Str) (to : Header)
    → canonical_key k ≡ k
    → k ≢ j
    → lookup j (copy_values k vs to) ≡ lookup j to
unfolding copy_values
lookup-copy_values_ne k j [] to c n = refl
lookup-copy_values_ne k j (v ∷ vs) to c n =
    lookup-copy_values_ne k j vs (set to k v) c n
    ∙ ground (arith, lookup-set to k j v, str_eq_iff k j, c)

-- Copying a well-formed header leaves, under each name, exactly the last value that the source
-- has for it, and what stood in the target where the source has no value.
pub lookup-copy_headers :
    (from to : Header) (j : Str)
    → HasDistinctKeys from
    → HasCanonicalKeys from
    → lookup j (copy_headers from to) ≡ copied (lookup j to) (lookup j from)
unfolding copy_headers lookup
lookup-copy_headers [] to j d c = refl
lookup-copy_headers ((k, vs) ∷ from) to j (a, d) (e, c) = elim (Bool-cases (str_eq k j)) [
  | inl hit ↦
      let same = (str_eq_iff k j).0 hit in
      rw (hit, lookup-copy_headers from (copy_values k vs to) j d c)
        (rw (lookup-Avoids j from (subst (λ i. Avoids i from) same a)) (
          subst (λ i. lookup i (copy_values k vs to) ≡ last_alone (lookup i to) vs) same
            (lookup-copy_values_self k vs to e)))
  | inr miss ↦
      rw (miss, lookup-copy_headers from (copy_values k vs to) j d c)
        (rw (lookup-copy_values_ne k j vs to e (λ q. ground (arith, str_eq_iff k j))))
]

abbrev pub last_of : Str → List Str → Str
last_of v [] = v
last_of v (w ∷ vs) = last_of w vs

last_alone-last_of :
    (old : Option (List Str)) (v : Str) (vs : List Str)
    → last_alone old (v ∷ vs) ≡ some (last_of v vs ∷ [])
last_alone-last_of old v [] = refl
last_alone-last_of old v (w ∷ vs) = last_alone-last_of old w vs

lookup_of_values :
    (h : Header) (j u : Str) (us : List Str)
    → canonical_key j ≡ j
    → values h j ≡ u ∷ us
    → lookup j h ≡ some (u ∷ us)
unfolding values
lookup_of_values h j u us e v = ground (arith, e)

-- In a copy of a well-formed header, a name that carries values in the source keeps only the last
-- one of them, however many there are.
pub values-copy_headers :
    (from to : Header) (j u : Str) (us : List Str)
    → HasDistinctKeys from
    → HasCanonicalKeys from
    → canonical_key j ≡ j
    → values from j ≡ u ∷ us
    → values (copy_headers from to) j ≡ last_of u us ∷ []
unfolding values
values-copy_headers from to j u us d c e h = rw (
  e,
  lookup-copy_headers from to j d c,
  lookup_of_values from j u us e h,
  last_alone-last_of (lookup j to) u us,
)
