-- ===== src/Base/Assoc.antt =====
-- Go maps with string keys as association lists. The order of the list is the order in which a
-- `range` visits the keys, which Go leaves open: statements range over every order.
use cdp_cache.Base.{
  ◌≡◌, refl, ◌≢◌, subst, Option, none, some, List, [], ◌∷◌, arith, if◌then◌else◌, All, Bool-cases,
  inl, inr,
}
use cdp_cache.Base.Text.{Str, str_eq, str_eq_iff}

module _ {ℓ} {V : Type ℓ} where
  unfoldable pub lookup : Str → List (Str × V) → Option V
  lookup k [] = none
  lookup k ((j, v) ∷ m) = if str_eq j k then some v else lookup k m

  unfoldable pub insert : Str → V → List (Str × V) → List (Str × V)
  insert k v [] = (k, v) ∷ []
  insert k v ((j, w) ∷ m) = if str_eq j k then (k, v) ∷ m else (j, w) ∷ insert k v m

  unfoldable pub erase : Str → List (Str × V) → List (Str × V)
  erase k [] = []
  erase k ((j, w) ∷ m) = if str_eq j k then erase k m else (j, w) ∷ erase k m

  pub lookup-insert :
      (k j : Str) (v : V) (m : List (Str × V))
      → lookup j (insert k v m) ≡ (if str_eq k j then some v else lookup j m)
  unfolding lookup insert
  lookup-insert k j v [] = refl
  lookup-insert k j v ((i, w) ∷ m) =
      ground (arith, str_eq_iff k j, str_eq_iff i k, str_eq_iff i j, lookup-insert k j v m)

  pub lookup-erase :
      (k j : Str) (m : List (Str × V))
      → lookup j (erase k m) ≡ (if str_eq k j then none else lookup j m)
  unfolding lookup erase
  lookup-erase k j [] = ground arith
  lookup-erase k j ((i, w) ∷ m) =
      ground (arith, str_eq_iff k j, str_eq_iff i k, str_eq_iff i j, lookup-erase k j m)

  -- No key of the list is k.
  abbrev pub Avoids : Str → List (Str × V) → Type 0
  Avoids k = All (λ p. p.0 ≢ k)

  -- The keys are pairwise different, as in every Go map.
  abbrev pub HasDistinctKeys : List (Str × V) → Type 0
  HasDistinctKeys [] = Unit
  HasDistinctKeys ((k, v) ∷ m) = Avoids k m × HasDistinctKeys m

  pub lookup-Avoids : (k : Str) (m : List (Str × V)) → Avoids k m → lookup k m ≡ none
  unfolding lookup
  lookup-Avoids k [] h = refl
  lookup-Avoids k ((j, v) ∷ m) h = ground (arith, str_eq_iff j k, lookup-Avoids k m h.1)

  pub insert-Avoids :
      (k j : Str) (v : V) (m : List (Str × V)) → k ≢ j → Avoids j m → Avoids j (insert k v m)
  unfolding insert
  insert-Avoids k j v [] n h = (n, tt)
  insert-Avoids k j v ((i, w) ∷ m) n h = ground (arith, insert-Avoids k j v m n h.1)

  pub insert-HasDistinctKeys :
      (k : Str) (v : V) (m : List (Str × V)) → HasDistinctKeys m → HasDistinctKeys (insert k v m)
  unfolding insert
  insert-HasDistinctKeys k v [] h = (tt, tt)
  insert-HasDistinctKeys k v ((j, w) ∷ m) (a, h) = elim (Bool-cases (str_eq j k)) [
    | inl e ↦ rw e (subst (λ i. Avoids i m) ((str_eq_iff j k).0 e) a, h)
    | inr e ↦ rw e (
      insert-Avoids k j v m (λ q. ground (arith, str_eq_iff j k)) a,
      insert-HasDistinctKeys k v m h,
    )
  ]
