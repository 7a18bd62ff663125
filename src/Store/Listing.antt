-- ===== src/Store/Listing.antt =====
-- Keys of cache.go lists the keys that have an entry.
use cdp_cache.Base.{
  ℕ, zero, suc, ◌+◌, ◌≡◌, ◌≢◌, ◌↔◌, refl, sym, ap, ◌∙◌, subst, ◌⊎◌, inl, inr, some, List, [], ◌∷◌,
  ◌++◌, arith, Bool-cases, Option-cases, get_elem?, All,
}
use cdp_cache.Base.Text.{Str, str_eq, str_eq_iff}
use cdp_cache.Base.Assoc.{lookup, HasDistinctKeys, lookup-Avoids}
use cdp_cache.Bucket.{bucket_index}
use cdp_cache.Entry.{Entry}
use cdp_cache.Store.{HttpCache, Slot, Bucket, bucket_of, bucket_keys, all_keys, keys}
use cdp_cache.Store.Invariant.{IsValid, BucketsValid, HasKey}
use cdp_cache.Store.Lookup.{slot_of}

-- k is one of the listed keys.
abbrev pub Listed : Str → List Str → Type 0
Listed k [] = ⊥
Listed k (x ∷ xs) = (k ≡ x) ⊎ Listed k xs

Listed-append_left : (k : Str) (xs ys : List Str) → Listed k xs → Listed k (xs ++ ys)
Listed-append_left k [] ys h = elim h [ ]
Listed-append_left k (x ∷ xs) ys (inl e) = inl e
Listed-append_left k (x ∷ xs) ys (inr h) = inr (Listed-append_left k xs ys h)

Listed-append_right : (k : Str) (xs ys : List Str) → Listed k ys → Listed k (xs ++ ys)
Listed-append_right k [] ys h = h
Listed-append_right k (x ∷ xs) ys h = inr (Listed-append_right k xs ys h)

Listed-append : (k : Str) (xs ys : List Str) → Listed k (xs ++ ys) → Listed k xs ⊎ Listed k ys
Listed-append k [] ys h = inr h
Listed-append k (x ∷ xs) ys (inl e) = inl (inl e)
Listed-append k (x ∷ xs) ys (inr h) = elim (Listed-append k xs ys h) [
  | inl l ↦ inl (inr l)
  | inr r ↦ inr r
]

-- The slot holds an entry.
abbrev pub HasEntry : Slot → Type 0
HasEntry s = s.live ≢ []

bucket_keys-cons :
    (k : Str) (s : Slot) (b : Bucket)
    → ((s.live ≡ []) × (bucket_keys ((k, s) ∷ b) ≡ bucket_keys b))
      ⊎ (HasEntry s × (bucket_keys ((k, s) ∷ b) ≡ k ∷ bucket_keys b))
unfolding bucket_keys
bucket_keys-cons k s b = by_live s.live refl
  where
    by_live :
        (es : List Entry)
        → s.live ≡ es
        → ((s.live ≡ []) × (bucket_keys ((k, s) ∷ b) ≡ bucket_keys b))
          ⊎ (HasEntry s × (bucket_keys ((k, s) ∷ b) ≡ k ∷ bucket_keys b))
    by_live [] e = inl (e, rw (e, bucket_keys))
    by_live (x ∷ xs) e = inr ((λ n. cc), rw (e, bucket_keys))

abbrev Found : Str → Bucket → Type 0
Found k b = (s : Slot) × (lookup k b ≡ some s) × HasEntry s

-- What a map holds behind its first key it holds altogether.
Found-cons :
    (k j : Str) (t : Slot) (b : Bucket)
    → HasDistinctKeys ((j, t) ∷ b)
    → Found k b
    → Found k ((j, t) ∷ b)
unfolding lookup
Found-cons k j t b (a, d) (s, q, f) = elim (Bool-cases (str_eq j k)) [
  | inl hit ↦
      let moved = subst (λ x. All (λ p. p.0 ≢ x) b) ((str_eq_iff j k).0 hit) a in
      absurd (ground (arith, q, lookup-Avoids k b moved))
  | inr miss ↦ (s, rw miss q, f)
]

bucket_keys_sound :
    (k : Str) (b : Bucket) → HasDistinctKeys b → Listed k (bucket_keys b) → Found k b
bucket_keys_sound k [] d h = absurd (unfold bucket_keys in h)
bucket_keys_sound k ((j, t) ∷ b) d h =
    let rest =
      λ (l : Listed k (bucket_keys b)). Found-cons k j t b d (bucket_keys_sound k b d.1 l) in
    elim (bucket_keys-cons j t b) [
      | inl (empty, e) ↦ rest (subst (Listed k) e h)
      | inr (full, e) ↦ first (subst (Listed k) e h) full rest
    ]
  where
    first :
        Listed k (j ∷ bucket_keys b)
        → HasEntry t
        → (Listed k (bucket_keys b) → Found k ((j, t) ∷ b))
        → Found k ((j, t) ∷ b)
    first (inl same) full rest =
        (t, unfold lookup in ground (arith, (str_eq_iff j k).1 (sym same)), full)
    first (inr more) full rest = rest more

bucket_keys_complete : (k : Str) (b : Bucket) → Found k b → Listed k (bucket_keys b)
bucket_keys_complete k [] (s, q, f) = absurd (unfold lookup in ground (arith, q))
bucket_keys_complete k ((j, t) ∷ b) (s, q, f) = elim (Bool-cases (str_eq j k)) [
  | inl hit ↦
      let same : t ≡ s = unfold lookup in ground (arith, q, hit) in
      elim (bucket_keys-cons j t b) [
        | inl (empty, e) ↦ absurd (f (ap (λ (u : Slot). u.live) (sym same) ∙ empty))
        | inr (full, e) ↦ subst (Listed k) (sym e) (inl (sym ((str_eq_iff j k).0 hit)))
      ]
  | inr miss ↦
      let rest = bucket_keys_complete k b (s, unfold lookup in ground (arith, q, miss), f) in
      elim (bucket_keys-cons j t b) [
        | inl (empty, e) ↦ subst (Listed k) (sym e) rest
        | inr (full, e) ↦ subst (Listed k) (sym e) (inr rest)
      ]
]

lookup-index :
    (n i : ℕ) (k : Str) (b : Bucket) (s : Slot)
    → All (λ p. (bucket_index n p.0 ≡ i) × HasKey p.0 p.1) b
    → lookup k b ≡ some s
    → bucket_index n k ≡ i
unfolding lookup
lookup-index n i k [] s a q = absurd (ground arith)
lookup-index n i k ((j, t) ∷ b) s (p, a) q = elim (Bool-cases (str_eq j k)) [
  | inl hit ↦ subst (λ x. bucket_index n x ≡ i) ((str_eq_iff j k).0 hit) p.0
  | inr miss ↦ lookup-index n i k b s a (ground arith)
]

-- The bucket at the index of k holds it.
abbrev FoundIn : ℕ → ℕ → Str → List Bucket → Type 0
FoundIn n i k bs =
    (j : ℕ) × (b : Bucket) × (get_elem? bs j ≡ some b) × (bucket_index n k ≡ i + j) × Found k b

all_keys_sound :
    (n i : ℕ) (k : Str) (bs : List Bucket)
    → BucketsValid n i bs
    → Listed k (all_keys bs)
    → FoundIn n i k bs
all_keys_sound n i k [] v h = absurd (unfold all_keys in h)
all_keys_sound n i k (b ∷ bs) (v, vs) h =
    elim (Listed-append k (bucket_keys b) (all_keys bs) (unfold all_keys in h)) [
      | inl here ↦
          let (s, q, f) = bucket_keys_sound k b v.0 here in
          let index = lookup-index n i k b s v.1 q in (0, b, refl, omega (arith, index), (s, q, f))
      | inr later ↦
          let (j, c, g, index, found) = all_keys_sound n (suc i) k bs vs later in
          (suc j, c, g, omega (arith, index), found)
    ]

all_keys_complete :
    (k : Str) (bs : List Bucket) (j : ℕ) {b : Bucket}
    → get_elem? bs j ≡ some b
    → Found k b
    → Listed k (all_keys bs)
unfolding all_keys
all_keys_complete k [] j g f = absurd (ground arith)
all_keys_complete k (b ∷ bs) zero {b = c} g f =
    let same : b ≡ c = ground arith in
    Listed-append_left k (bucket_keys b) (all_keys bs)
      (bucket_keys_complete k b (subst (Found k) (sym same) f))
all_keys_complete k (b ∷ bs) (suc j) g f =
    Listed-append_right k (bucket_keys b) (all_keys bs) (all_keys_complete k bs j g f)

-- On a valid cache Keys lists a key exactly when its slot holds an entry: keys whose entries have
-- all been cleaned are left out.
pub keys_iff :
    (h : HttpCache) (k : Str)
    → IsValid h
    → Listed k (keys h) ↔ ((s : Slot) × (slot_of h k ≡ some s) × HasEntry s)
unfolding keys slot_of bucket_of
keys_iff h k v = (to, from)
  where
    to : Listed k (keys h) → (s : Slot) × (slot_of h k ≡ some s) × HasEntry s
    to l =
        let (j, b, g, index, (s, q, f)) =
          all_keys_sound h.cache_buckets_num 0 k h.entries v.placed l in
        let same : bucket_index h.cache_buckets_num k ≡ j = omega (arith, index) in
        (s, rw (same, g, q), f)

    from : ((s : Slot) × (slot_of h k ≡ some s) × HasEntry s) → Listed k (keys h)
    from (s, q, f) = elim (Option-cases (bucket_of h k)) [
      | inl n ↦ absurd (ground (arith, n))
      | inr (b, g) ↦ elim (Option-cases (lookup k b)) [
        | inl n ↦ absurd (f (ground (arith, g, n)))
        | inr (t, m) ↦
            all_keys_complete k h.entries (bucket_index h.cache_buckets_num k) g
              (t, m, λ e. f (ground (arith, g, m, e)))
      ]
    ]
