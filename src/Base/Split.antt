-- ===== src/Base/Split.antt =====
-- Facts about the string functions of Base.Text.
use cdp_cache.Base.{
  ℕ, ◌≡◌, ◌≢◌, ◌==◌, refl, true, false, Bool-cases, inl, inr, [], ◌∷◌, ◌++◌, arith, All,
}
use cdp_cache.Base.Text.{Str, pieces_list, split_byte, has_prefix, contains_byte}

-- The byte c does not occur.
abbrev pub Lacks : ℕ → Str → Type 0
Lacks c = All (λ d. d ≢ c)

-- The check of a concrete text.
pub contains_byte-Lacks : (c : ℕ) (s : Str) → contains_byte s c ≡ false → Lacks c s
unfolding contains_byte
contains_byte-Lacks c [] h = tt
contains_byte-Lacks c (x ∷ s) h = elim (Bool-cases (x == c)) [
  | inl e ↦ absurd (ground (arith, h, e))
  | inr e ↦ (ground (arith, e), contains_byte-Lacks c s (rw e at h))
]

pub split_byte-Lacks :
    (s : Str) (c : ℕ) → Lacks c s → split_byte s c ≡ record { first = s; others = [] }
unfolding split_byte
split_byte-Lacks [] c h = refl
split_byte-Lacks (x ∷ s) c (n, h) = ground (arith, split_byte-Lacks s c h)

-- The first piece ends at the first separator.
pub split_byte-at :
    (s t : Str) (c : ℕ)
    → Lacks c s
    → split_byte (s ++ c ∷ t) c ≡ record { first = s; others = pieces_list (split_byte t c) }
unfolding split_byte
split_byte-at [] t c h = ground arith
split_byte-at (x ∷ s) t c (n, h) = ground (arith, split_byte-at s t c h)

pub has_prefix-append : (p s : Str) → has_prefix (p ++ s) p ≡ true
unfolding has_prefix
has_prefix-append [] [] = refl
has_prefix-append [] (y ∷ s) = refl
has_prefix-append (x ∷ p) s = ground (arith, has_prefix-append p s)
