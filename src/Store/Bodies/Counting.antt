-- ===== src/Store/Bodies/Counting.antt =====
-- The loops of Put and cleanEntry of cache.go over one list, and how often a body is in it.
use cdp_cache.Base.{
  ℕ, ◌+◌, ◌≡◌, refl, subst, inl, inr, ◌==◌, ==_iff, Option, none, some, List, [], ◌∷◌, ◌++◌, arith,
  Bool-cases, Option-cases, All,
}
use cdp_cache.Base.Text.{Str}
use cdp_cache.Entry.{Entry, match_vary}
use cdp_cache.Store.{place, replaced}
use cdp_cache.Store.Cleaning.{remove_entry}
use cdp_cache.Store.Bodies.{total, is_body}

-- The measure of an entry that may be missing.
abbrev pub total_some : (Entry → ℕ) → Option Entry → ℕ
total_some f none = 0
total_some f (some x) = f x

pub total-append {ℓ} :
    {A : Type ℓ} (f : A → ℕ) (xs ys : List A) → total f (xs ++ ys) ≡ total f xs + total f ys
total-append f [] ys = omega arith
total-append f (x ∷ xs) ys = omega (arith, total-append f xs ys)

-- The loop of Put puts the new entry in, and takes the replaced one out.
pub total-place :
    (f : Entry → ℕ) (e : Entry) (xs : List Entry)
    → total f (place e xs) + total_some f (replaced e xs) ≡ total f xs + f e
unfolding place replaced
total-place f e [] = omega arith
total-place f e (x ∷ xs) = ground (arith, total-place f e xs)

same_body :
    (j : Str) (k : ℕ) (x e : Entry)
    → x.key ≡ e.key
    → e.ident ≡ x.ident
    → is_body j k x ≡ is_body j k e
unfolding is_body
same_body j k x e p q = rw (p, q) refl

-- The loop over the list of cleanEntry takes one out, whose address is that of e.
pub total-remove_entry :
    (j : Str) (k : ℕ) (e : Entry) (xs : List Entry) {rest : List Entry}
    → All (λ x. x.key ≡ e.key) xs
    → remove_entry e xs ≡ some rest
    → total (is_body j k) xs ≡ total (is_body j k) rest + is_body j k e
unfolding remove_entry
total-remove_entry j k e [] a h = absurd (ground (arith, h))
total-remove_entry j k e (x ∷ xs) {rest} (p, a) h = elim (Bool-cases (e.ident == x.ident)) [
  | inl hit ↦
      let same : rest ≡ xs = ground (arith, h, hit) in
      rw (same, same_body j k x e p ((==_iff _ _).0 hit)) (omega arith)
  | inr miss ↦ elim (Option-cases (remove_entry e xs)) [
    | inl n ↦ absurd (ground (arith, h, miss, n))
    | inr (r, q) ↦
        let same : rest ≡ x ∷ r = ground (arith, h, miss, q) in
        rw same (omega (arith, total-remove_entry j k e xs a q))
  ]
]

-- It finds every body under its address.
pub total-remove_none :
    (j : Str) (e : Entry) (xs : List Entry)
    → remove_entry e xs ≡ none
    → total (is_body j e.ident) xs ≡ 0
unfolding remove_entry is_body
total-remove_none j e [] h = refl
total-remove_none j e (x ∷ xs) h = elim (Bool-cases (e.ident == x.ident)) [
  | inl hit ↦ absurd (ground (arith, h, hit))
  | inr miss ↦ elim (Option-cases (remove_entry e xs)) [
    | inl n ↦ ground (arith, miss, total-remove_none j e xs n)
    | inr (r, q) ↦ absurd (ground (arith, h, miss, q))
  ]
]

pub replaced-All {κ} :
    (P : Entry → Type κ) (e : Entry) (xs : List Entry)
    → All P xs
    → (x : Entry) → replaced e xs ≡ some x
    → P x
unfolding replaced
replaced-All P e [] a x h = absurd (ground (arith, h))
replaced-All P e (y ∷ xs) (p, a) x h = elim (Bool-cases (match_vary e.request y)) [
  | inl hit ↦ let same : y ≡ x = ground (arith, h, hit) in subst P same p
  | inr miss ↦ replaced-All P e xs a x (ground (arith, h, miss))
]
