-- ===== src/Store/Spec.antt =====
-- What the cache of cache.go promises: a function from keys to lists of entries, with no buckets,
-- no hashes and no arrays. The operations are those that one goroutine makes atomically: Put, Get,
-- and cleanEntry, which the goroutine of scheduleCleanEntry calls.
use mathlib.Core.Option
use cdp_cache.Base.{
  ℕ, ◌<◌, ◌≡◌, refl, sym, ap, ◌∙◌, inl, inr, Bool, Option, none, some, List, [], ◌∷◌, arith,
  Bool-cases, Option-cases, ◌++◌, ◌==◌, drop, if◌then◌else◌, zero, suc, get_elem?, replicate,
}
use cdp_cache.Base.Int.{pos_part, magnitude}
use cdp_cache.Base.Text.{Str, str_eq, str_eq_iff}
use cdp_cache.Base.Assoc.{lookup}
use cdp_cache.Bucket.{bucket_index}
use cdp_cache.Http.{Request}
use cdp_cache.Config.{Config}
use cdp_cache.Status.{Clock}
use cdp_cache.Entry.{Entry, match_vary}
use cdp_cache.Store.{
  slot_or_nil, HttpCache, ◌>>=◌, Slot, Task, new_http_cache, made_http_cache, find_entry, get,
  place, place_slot, put, nil_slot, Bucket, bucket_of,
}
use cdp_cache.Store.Cleaning.{Outside, Cleaned, remove_entry, shrunk, clean_entry}
use cdp_cache.Store.Lookup.{slot_of, slot_of-bucket, get-slot_of, slot_of-put}
use cdp_cache.Store.Purge.{CleanedBy, clean_entry-CleanedBy}
use cdp_cache.Store.Invariant.{
  IsValid, bucket_of-IsValid, made_http_cache-IsValid, new_http_cache-made, put-IsValid,
  clean_entry-IsValid,
}

-- A call on the cache.
pub data Operation : Type 0 where
  stores : Entry → Config → Operation
  removes : Entry → Operation
  asks : Str → Request → Bool → Clock → Operation

-- The answers of the Gets, in order, as the code computes them; `none` is a panic.
unfoldable pub answers : Outside → HttpCache → List Operation → Option (List (Option Entry))
answers o h [] = some []
answers o h (stores e config ∷ ops) = put h e config >>= λ r. answers o r.0 ops
answers o h (removes e ∷ ops) = clean_entry o h e >>= λ r. answers o r.0 ops
answers o h (asks key req stale clock ∷ ops) = do
  found ← get h key req stale clock
  rest ← answers o h ops
  some (found ∷ rest)

-- The abstract state.
abbrev pub Map : Type 0
Map = Str → List Entry

abbrev pub set_key : Str → List Entry → Map → Map
set_key key es m j = if str_eq key j then es else m j

-- The entries before the first one that passes a test, and that one with those behind it.
abbrev pub split_first : (Entry → Bool) → List Entry → List Entry × List Entry
split_first test [] = ([], [])
split_first test (x ∷ xs) =
    let (before, rest) = split_first test xs in if test x then ([], x ∷ xs) else (x ∷ before, rest)

-- New entries in the place of the first one that passes a test, at the end if there is none.
abbrev pub exchange : (Entry → Bool) → List Entry → List Entry → List Entry
exchange test new es = let (before, rest) = split_first test es in before ++ (new ++ drop 1 rest)

-- A new entry takes the place of the first one that answers its request.
abbrev pub with_entry : Entry → List Entry → List Entry
with_entry e es = exchange (match_vary e.request) (e ∷ []) es

-- The first entry with the address of e is gone.
abbrev pub without_entry : Entry → List Entry → List Entry
without_entry e es = exchange (λ x. e.ident == x.ident) [] es

-- The answers of the abstract cache.
unfoldable pub map_answers : Map → List Operation → List (Option Entry)
map_answers m [] = []
map_answers m (stores e config ∷ ops) = map_answers (set_key e.key (with_entry e (m e.key)) m) ops
map_answers m (removes e ∷ ops) = map_answers (set_key e.key (without_entry e (m e.key)) m) ops
map_answers m (asks key req stale clock ∷ ops) =
    find_entry (m key) req stale clock ∷ map_answers m ops

place-with_entry : (e : Entry) (es : List Entry) → place e es ≡ with_entry e es
unfolding place
place-with_entry e [] = refl
place-with_entry e (x ∷ es) = ground (arith, place-with_entry e es)

abbrev without : Entry → List Entry → List Entry
without e es = Option.get_or (remove_entry e es) es

without-without_entry : (e : Entry) (es : List Entry) → without e es ≡ without_entry e es
unfolding remove_entry
without-without_entry e [] = refl
without-without_entry e (x ∷ es) = elim (Option-cases (remove_entry e es)) [
  | inl n ↦ ground (arith, n, without-without_entry e es)
  | inr (r, q) ↦ ground (arith, q, without-without_entry e es)
]

-- Under the invariant every key has a slot.
pub slot_of-IsValid :
    (h : HttpCache) (key : Str) → IsValid h → (s : Slot) × (slot_of h key ≡ some s)
slot_of-IsValid h key v =
    let (b, q) = bucket_of-IsValid h key v in (slot_or_nil (lookup key b), slot_of-bucket h key q)

-- The cache stands for the map: each key has a slot, with the entries of the map.
abbrev pub Holds : HttpCache → Map → Type 0
Holds h m = (j : Str) → (s : Slot) × (slot_of h j ≡ some s) × (s.live ≡ m j)

-- The entries of a slot that may be missing.
abbrev pub live_list : Option Slot → List Entry
live_list s = let t = slot_or_nil s in t.live

-- A write to the slot of one key is a write to the map.
Holds-write :
    (h g : HttpCache) (m : Map) (key : Str) (s : Slot) (es : List Entry)
    → Holds h m
    → ((j : Str) → slot_of g j ≡ (if str_eq key j then some s else slot_of h j))
    → s.live ≡ es
    → Holds g (set_key key es m)
Holds-write h g m key s es v w same j = elim (Bool-cases (str_eq key j)) [
  | inl hit ↦ (s, w j ∙ rw hit, rw (hit, same))
  | inr miss ↦ let (t, q, l) = v j in (t, w j ∙ rw (miss, q), rw (miss, l))
]

pub Holds-put :
    (h : HttpCache) (m : Map) (e : Entry) (config : Config) {g : HttpCache} {ts : List Task}
    → Holds h m
    → put h e config ≡ some (g, ts)
    → Holds g (set_key e.key (with_entry e (m e.key)) m)
Holds-put h m e config {g} v p =
    let (s, q, l) = v e.key in
    Holds-write h g m e.key (place_slot e s) (with_entry e (m e.key)) v
      (λ j. slot_of-put h e config j p ∙ written j s q)
      (unfold place_slot in ap (place e) l ∙ place-with_entry e (m e.key))
  where
    written :
        (j : Str) (s : Slot)
        → slot_of h e.key ≡ some s
        → (if str_eq e.key j then Option.map (place_slot e) (slot_of h j) else slot_of h j)
          ≡ (if str_eq e.key j then some (place_slot e s) else slot_of h j)
    written j s q = elim (Bool-cases (str_eq e.key j)) [
      | inl hit ↦ rw (hit, ← (str_eq_iff e.key j).0 hit, q)
      | inr miss ↦ rw miss
    ]

pub Holds-clean :
    (o : Outside) (h : HttpCache) (m : Map) (e : Entry) {r : Cleaned}
    → Holds h m
    → clean_entry o h e ≡ some r
    → Holds r.0 (set_key e.key (without_entry e (m e.key)) m)
Holds-clean o h m e {r} v p =
    let (s, q, l) = v e.key in
    let (g, x, found, by) = clean_entry-CleanedBy o h e s q in
    let same : g ≡ r.0 = ap (λ (c : Cleaned). c.0) (Option.some_inj.0 (sym found ∙ p)) in
    rw (← same) (after s g q l by)
  where
    after :
        (s : Slot) (g : HttpCache)
        → slot_of h e.key ≡ some s
        → s.live ≡ m e.key
        → CleanedBy e h s g
        → Holds g (set_key e.key (without_entry e (m e.key)) m)
    after s g q l (inl (n, same)) =
        let held : s.live ≡ without e (m e.key) = rw (← l, n) refl in
        Holds-write h g m e.key s (without_entry e (m e.key)) v (λ j. rw same (unchanged j))
          (held ∙ without-without_entry e (m e.key))
      where
        unchanged : (j : Str) → slot_of h j ≡ (if str_eq e.key j then some s else slot_of h j)
        unchanged j = elim (Bool-cases (str_eq e.key j)) [
          | inl hit ↦ rw (hit, ← (str_eq_iff e.key j).0 hit, q)
          | inr miss ↦ rw miss
        ]
    after s g q l (inr (rest, found, w)) =
        let held : rest ≡ without e (m e.key) = rw (← l, found) refl in
        Holds-write h g m e.key (shrunk e rest s) (without_entry e (m e.key)) v w
          (held ∙ without-without_entry e (m e.key))

answers_from :
    (o : Outside) (h : HttpCache) (m : Map) (ops : List Operation)
    → IsValid h
    → Holds h m
    → answers o h ops ≡ some (map_answers m ops)
unfolding answers map_answers
answers_from o h m [] v a = refl
answers_from o h m (stores e config ∷ ops) v a =
    let (g, ts, p, w) = put-IsValid h e config v in
    rw (
      p,
      answers_from o g (set_key e.key (with_entry e (m e.key)) m) ops w
          (Holds-put h m e config a p),
    )
answers_from o h m (removes e ∷ ops) v a =
    let (g, r, p, w) = clean_entry-IsValid o h e v in
    rw (
      p,
      answers_from o g (set_key e.key (without_entry e (m e.key)) m) ops w
          (Holds-clean o h m e a p),
    )
answers_from o h m (asks key req stale clock ∷ ops) v a =
    let (s, q, l) = a key in
    rw (get-slot_of h key req stale clock, q, l, answers_from o h m ops v a)

get_elem?-replicate : (n i : ℕ) {b : Bucket} → get_elem? (replicate n []) i ≡ some b → b ≡ []
get_elem?-replicate zero i e = absurd (ground (arith, e))
get_elem?-replicate (suc n) zero e = ground (arith, e)
get_elem?-replicate (suc n) (suc i) e = get_elem?-replicate n i e

-- The first cache of a process has an empty slot for every key.
pub first_slot :
    (config : Config) (distributed_on : Bool) (j : Str)
    → 0 < pos_part config.cache_buckets_num
    → slot_of (made_http_cache none config distributed_on) j ≡ some nil_slot
unfolding slot_of bucket_of made_http_cache lookup
first_slot config distributed_on j p =
    let (b, q) =
      bucket_of-IsValid (made_http_cache none config distributed_on) j
        (made_http_cache-IsValid config distributed_on p) in
    let n = magnitude config.cache_buckets_num in
    let empty : b ≡ [] = get_elem?-replicate n (bucket_index n j) q in rw (q, empty) refl

-- With a positive number of buckets the first NewHTTPCache of a process does not panic, and from
-- its cache any sequence of Put, cleanEntry and Get runs without a panic, and every Get answers as
-- the map from keys to lists of entries does, which knows no buckets, hashes or arrays, whatever the
-- storages and the cluster answer.
pub answers-map_answers :
    (o : Outside) (config : Config) (distributed_on : Bool) (ops : List Operation)
    → 0 < pos_part config.cache_buckets_num
    → (h : HttpCache) × (new_http_cache none config distributed_on ≡ some h)
      × (answers o h ops ≡ some (map_answers (λ j. []) ops))
answers-map_answers o config distributed_on ops p =
    let h = made_http_cache none config distributed_on in
    (
      h,
      new_http_cache-made config distributed_on p,
      answers_from o h (λ j. []) ops (made_http_cache-IsValid config distributed_on p)
          (λ j. (nil_slot, first_slot config distributed_on j p, refl)),
    )
