-- ===== src/Store/Purge.antt =====
-- cleanEntry and Del of cache.go: what a purge of a key removes, and what it leaves.
use cdp_cache.Base.{
  ℕ, suc, ◌≡◌, ◌≢◌, refl, ◌∙◌, ◌⊎◌, inl, inr, true, false, ◌==◌, ==_refl, none, some, List, [], ◌∷◌,
  ◌++◌, arith, Bool-cases, Option-cases, if◌then◌else◌, All, length,
}
use cdp_cache.Base.Text.{Str, str_eq, str_eq_refl, str_eq_of_ne}
use cdp_cache.Base.Assoc.{lookup}
use cdp_cache.Status.{Clock}
use cdp_cache.Entry.{Entry, is_fresh}
use cdp_cache.Store.{HttpCache, Slot, Bucket, bucket_of, slot_or_nil, with_slot, later}
use cdp_cache.Store.Cleaning.{
  Outside, CleanResult, distributed_clean, remove_entry, last_entry, shrunk, clean_entry, cells,
  del_loop, del,
}
use cdp_cache.Store.Lookup.{slot_of, slot_of-with_slot}

-- A key whose slot can be read has a bucket.
pub bucket_of_slot :
    (h : HttpCache) (key : Str) (s : Slot)
    → slot_of h key ≡ some s
    → (b : Bucket) × (bucket_of h key ≡ some b) × (slot_or_nil (lookup key b) ≡ s)
unfolding slot_of
bucket_of_slot h key s e = elim (Option-cases (bucket_of h key)) [
  | inl n ↦ absurd (ground (arith, n))
  | inr (b, q) ↦ (b, q, ground (arith, q))
]

-- What cleanEntry leaves: the same cache, or one whose slot lacks the entry.
abbrev pub CleanedBy : Entry → HttpCache → Slot → HttpCache → Type 0
CleanedBy e h s g =
    ((remove_entry e s.live ≡ none) × (g ≡ h))
    ⊎ ((rest : List Entry) × (remove_entry e s.live ≡ some rest)
        × ((j : Str)
            → slot_of g j ≡ (if str_eq e.key j then some (shrunk e rest s) else slot_of h j)))

pub clean_entry-CleanedBy :
    (o : Outside) (h : HttpCache) (e : Entry) (s : Slot)
    → slot_of h e.key ≡ some s
    → (g : HttpCache) × (r : CleanResult) × (clean_entry o h e ≡ some (g, r)) × CleanedBy e h s g
unfolding clean_entry
clean_entry-CleanedBy o h e s q =
    let (b, found, same) = bucket_of_slot h e.key s q in
    elim (Option-cases (remove_entry e s.live)) [
      | inl n ↦ (h, ([], none), ground (arith, found, same, n), inl (n, refl))
      | inr (rest, m) ↦ (
        with_slot h e.key (shrunk e rest s) b,
        if h.is_distributed then distributed_clean o e.key e else (e ∷ [], o.clean_error e),
        ground (arith, found, same, m),
        inr (rest, m, λ j. slot_of-with_slot h e.key j (shrunk e rest s) b found),
      )
    ]

pub remove_entry-All {κ} :
    (P : Entry → Type κ) (e d : Entry) (xs : List Entry) {rest : List Entry}
    → remove_entry e xs ≡ some rest
    → All P xs
    → All P rest × P (last_entry d xs)
unfolding remove_entry
remove_entry-All P e d [] h a = absurd (ground arith)
remove_entry-All P e d (x ∷ xs) {rest} h (p, a) = elim (Bool-cases (e.ident == x.ident)) [
  | inl hit ↦ let same : rest ≡ xs = ground arith in rw same (a, last-All x xs p a)
  | inr miss ↦ elim (Option-cases (remove_entry e xs)) [
    | inl n ↦ absurd (ground arith)
    | inr (r, q) ↦
        let (b, l) = remove_entry-All P e x xs q a in
        let same : rest ≡ x ∷ r = ground arith in rw same ((p, b), l)
  ]
]
  where
    last-All : (x : Entry) (xs : List Entry) → P x → All P xs → P (last_entry x xs)
    last-All x [] p a = p
    last-All x (y ∷ ys) p (q, a) = last-All y ys q a

-- A slot that is not empty is in the map.
lookup_of_slot :
    (h : HttpCache) (key : Str) (x : Entry) (xs vacated : List Entry)
    → slot_of h key ≡ some (record { live = x ∷ xs; vacated = vacated })
    → (bucket : Bucket) × (bucket_of h key ≡ some bucket)
      × (lookup key bucket ≡ some (record { live = x ∷ xs; vacated = vacated }))
lookup_of_slot h key x xs vacated q =
    let (bucket, found, same) = bucket_of_slot h key _ q in
    elim (Option-cases (lookup key bucket)) [
      | inl n ↦ absurd (ground (arith, n))
      | inr (t, m) ↦ (bucket, found, ground (arith, m))
    ]

-- Del from its loop on, where the key has a slot that is not empty.
pub del-loop :
    (o : Outside) (h : HttpCache) (key : Str) (clock : Clock) (x : Entry) (xs vacated : List Entry)
    → slot_of h key ≡ some (record { live = x ∷ xs; vacated = vacated })
    → (del o key clock h ≡ del_loop o key (suc (length xs)) 0 clock h)
      × (cells h key ≡ x ∷ xs ++ vacated)
unfolding del cells
del-loop o h key clock x xs vacated q =
    let (bucket, found, m) = lookup_of_slot h key x xs vacated q in
    (ground (arith, found, m), ground (arith, found, m))

-- The first round of the loop, where the entry is fresh and its cleaning meets no error.
pub first_round :
    (o : Outside) (h g : HttpCache) (key : Str) (rounds : ℕ) (clock : Clock) (x : Entry)
    (xs bodies : List Entry)
    → cells h key ≡ x ∷ xs
    → is_fresh x (clock 0) ≡ true
    → clean_entry o h x ≡ some (g, (bodies, none))
    → {g' : HttpCache} {r : CleanResult} → del_loop o key rounds 1 (later clock) g ≡ some (g', r)
    → del_loop o key (suc rounds) 0 clock h ≡ some (g', (bodies ++ r.0, r.1))
unfolding del_loop
first_round o h g key rounds clock x xs bodies c fresh e loop = ground (arith, c, fresh, e, loop)

pub first_round_fails :
    (o : Outside) (h g : HttpCache) (key : Str) (rounds : ℕ) (clock : Clock) (x : Entry)
    (xs bodies : List Entry) (err : Str)
    → cells h key ≡ x ∷ xs
    → is_fresh x (clock 0) ≡ true
    → clean_entry o h x ≡ some (g, (bodies, some err))
    → del_loop o key (suc rounds) 0 clock h ≡ some (g, (bodies, some err))
unfolding del_loop
first_round_fails o h g key rounds clock x xs bodies err c fresh e = ground (arith, c, fresh, e)

-- cleanEntry of an entry that the cache holds, without a cluster.
pub clean_entry-local :
    (o : Outside) (h : HttpCache) (e : Entry) (s : Slot) (rest : List Entry)
    → slot_of h e.key ≡ some s
    → remove_entry e s.live ≡ some rest
    → h.is_distributed ≡ false
    → (g : HttpCache) × (clean_entry o h e ≡ some (g, (e ∷ [], o.clean_error e)))
      × ((j : Str) → slot_of g j ≡ (if str_eq e.key j then some (shrunk e rest s) else slot_of h j))
unfolding clean_entry
clean_entry-local o h e s rest q m local =
    let (b, found, same) = bucket_of_slot h e.key s q in
    (
      with_slot h e.key (shrunk e rest s) b,
      ground (arith, found, same, m, local),
      λ j. slot_of-with_slot h e.key j (shrunk e rest s) b found,
    )

-- A key with one entry that is fresh, and no cluster: Del cleans the body of that entry and no
-- other, reports its error, leaves the key with no entry, and touches no other key.
pub del_single :
    (o : Outside) (h : HttpCache) (a : Entry) (vacated : List Entry) (clock : Clock)
    → slot_of h a.key ≡ some (record { live = a ∷ []; vacated = vacated })
    → is_fresh a (clock 0) ≡ true
    → h.is_distributed ≡ false
    → (g : HttpCache) × (del o a.key clock h ≡ some (g, (a ∷ [], o.clean_error a)))
      × (slot_of g a.key ≡ some (record { live = []; vacated = a ∷ vacated }))
      × ((j : Str) → a.key ≢ j → slot_of g j ≡ slot_of h j)
unfolding del_loop
del_single o h a vacated clock q fresh local =
    let (start, array) = del-loop o h a.key clock a [] vacated q in
    let alone : remove_entry a (a ∷ []) ≡ some [] =
      unfold remove_entry in ground (arith, ==_refl a.ident) in
    let (g, e, view) = clean_entry-local o h a _ [] q alone local in
    (
      g,
      start ∙ elim (Option-cases (o.clean_error a)) [
        | inl fine ↦ ground (arith, array, fresh, e, fine)
        | inr (m, broken) ↦ ground (arith, array, fresh, e, broken)
      ],
      view a.key ∙ rw (str_eq_refl a.key),
      λ j n. view j ∙ rw (str_eq_of_ne n),
    )
