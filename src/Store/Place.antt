-- ===== src/Store/Place.antt =====
-- The loops of Get and Put of cache.go over one list of entries.
use cdp_cache.Base.{
  ℕ, suc, ◌≡◌, refl, ◌⊎◌, inl, inr, Bool, true, false, ◌&&◌, ◌||◌, some, List, [], ◌∷◌, arith,
  Bool-cases,
}
use cdp_cache.Http.{Request}
use cdp_cache.Status.{Clock}
use cdp_cache.Entry.{Entry, is_fresh, match_vary}
use cdp_cache.Entry.Vary.{match_vary_refl}
use cdp_cache.Store.{find_entry, place, later}

-- The entry is fresh whenever the clock is read.
abbrev pub StaysFresh : Entry → Clock → Type 0
StaysFresh e clock = (n : ℕ) → is_fresh e (clock n) ≡ true

-- e is one of the entries.
abbrev pub Among : Entry → List Entry → Type 0
Among e [] = ⊥
Among e (x ∷ xs) = (e ≡ x) ⊎ Among e xs

-- After Put's loop the first entry that answers the new entry's request is the new entry.
pub find_entry-place :
    (e : Entry) (xs : List Entry) (stale : Bool) (clock : Clock)
    → StaysFresh e clock
    → find_entry (place e xs) e.request stale clock ≡ some e
unfolding find_entry place
find_entry-place e [] stale clock f = ground (arith, f 0, match_vary_refl e)
find_entry-place e (x ∷ xs) stale clock f =
    ground
      (arith, f 0, match_vary_refl e, find_entry-place e xs stale (later clock) (λ n. f (suc n)))

-- The entry was fresh at a reading of the clock, or stale ones were asked for.
abbrev pub WasFresh : Entry → Bool → Clock → Type 0
WasFresh e stale clock = ((n : ℕ) × (is_fresh e (clock n) ≡ true)) ⊎ (stale ≡ true)

WasFresh-later :
    (e : Entry) (stale : Bool) (clock : Clock)
    → WasFresh e stale (later clock)
    → WasFresh e stale clock
WasFresh-later e stale clock (inl (n, p)) = inl (suc n, p)
WasFresh-later e stale clock (inr p) = inr p

WasFresh-now :
    (e : Entry) (stale : Bool) (clock : Clock)
    → (is_fresh e (clock 0) || stale) ≡ true
    → WasFresh e stale clock
WasFresh-now e stale clock h = elim (Bool-cases stale) [
  | inl t ↦ inr t
  | inr f ↦ inl (0, ground arith)
]

-- What the loop of Get returns is an entry of the list that answers the request, and that was
-- fresh at a reading of the clock unless stale ones are asked for.
pub find_entry_sound :
    (xs : List Entry) (req : Request) (stale : Bool) (clock : Clock) (e : Entry)
    → find_entry xs req stale clock ≡ some e
    → Among e xs × (match_vary req e ≡ true) × WasFresh e stale clock
unfolding find_entry
find_entry_sound [] req stale clock e h = absurd (ground arith)
find_entry_sound (x ∷ xs) req stale clock e h =
    elim (Bool-cases ((is_fresh x (clock 0) || stale) && match_vary req x)) [
      | inl t ↦
          let same : e ≡ x = ground arith in
          rw same (inl refl, ground arith, WasFresh-now x stale clock (ground arith))
      | inr t ↦
          let (a, m, f) = find_entry_sound xs req stale (later clock) e (ground arith) in
          (inr a, m, WasFresh-later e stale clock f)
    ]

-- A fresh entry that answers the request is never passed over: the loop then returns some entry.
pub find_entry_complete :
    (xs : List Entry) (req : Request) (stale : Bool) (clock : Clock) (e : Entry)
    → Among e xs
    → match_vary req e ≡ true
    → StaysFresh e clock
    → (x : Entry) × (find_entry xs req stale clock ≡ some x)
unfolding find_entry
find_entry_complete [] req stale clock e a m f = elim a [ ]
find_entry_complete (x ∷ xs) req stale clock e (inl same) m f = (x, ground (arith, f 0, same))
find_entry_complete (x ∷ xs) req stale clock e (inr more) m f =
    let (y, found) = find_entry_complete xs req stale (later clock) e more m (λ n. f (suc n)) in
    elim (Bool-cases ((is_fresh x (clock 0) || stale) && match_vary req x)) [
      | inl t ↦ (x, ground arith)
      | inr t ↦ (y, ground arith)
    ]

-- Put's loop keeps every entry that the new request does not match.
pub place-keeps :
    (e : Entry) (xs : List Entry) (x : Entry)
    → Among x xs
    → match_vary e.request x ≡ false
    → Among x (place e xs)
unfolding place
place-keeps e [] x a m = elim a [ ]
place-keeps e (y ∷ xs) x (inl same) m = ground (arith, same, place)
place-keeps e (y ∷ xs) x (inr more) m = elim (Bool-cases (match_vary e.request y)) [
  | inl t ↦ rw t (inr more)
  | inr t ↦ rw t (inr (place-keeps e xs x more m))
]
