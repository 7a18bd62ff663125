-- ===== src/Store/Invariant.antt =====
-- The shape of the cache of cache.go that every operation keeps: as many buckets as the number by
-- which keys are hashed, every key in the bucket of its index and only once, and every entry under
-- its own key.
use cdp_cache.Base.{
  ℕ, zero, suc, ◌+◌, ◌<◌, ◌≡◌, refl, sym, ap, ◌∙◌, subst, inl, inr, Bool, Option, none, some, List,
  [], ◌∷◌, arith, Bool-cases, Option-cases, if◌then◌else◌, get_elem?, set, replicate, length,
  length-set, get_elem?-lt, All,
}
use cdp_cache.Base.Int.{pos_part, magnitude, ◌+ℤ◌}
use cdp_cache.Base.Text.{Str, str_eq, str_eq_iff}
use cdp_cache.Base.Assoc.{lookup, insert, HasDistinctKeys, insert-HasDistinctKeys}
use cdp_cache.Http.{Request}
use cdp_cache.Config.{Config}
use cdp_cache.Status.{Clock}
use cdp_cache.Bucket.{bucket_index, bucket_index-lt}
use cdp_cache.Entry.{Entry, match_vary}
use cdp_cache.Store.{
  HttpCache, Slot, Bucket, Task, clean_later, clean_replaced, find_entry, new_http_cache,
  made_http_cache, bucket_of, slot_or_nil, get, place, replaced, place_slot, with_slot, put,
}
use cdp_cache.Store.Cleaning.{
  Outside, CleanResult, remove_entry, shrunk, distributed_clean, clean_entry,
}
use cdp_cache.Store.Purge.{remove_entry-All}

-- Every entry of the slot has the key of the slot.
abbrev pub HasKey : Str → Slot → Type 0
HasKey k s = All (λ e. e.key ≡ k) s.live

abbrev pub BucketValid : ℕ → ℕ → Bucket → Type 0
BucketValid n i b = HasDistinctKeys b × All (λ p. (bucket_index n p.0 ≡ i) × HasKey p.0 p.1) b

abbrev pub BucketsValid : ℕ → ℕ → List Bucket → Type 0
BucketsValid n i [] = Unit
BucketsValid n i (b ∷ bs) = BucketValid n i b × BucketsValid n (suc i) bs

pub record IsValid (h : HttpCache) : Type 0 where
  pub sized : length h.entries ≡ h.cache_buckets_num
  pub nonzero : 0 < h.cache_buckets_num
  pub placed : BucketsValid h.cache_buckets_num 0 h.entries

-- Under the invariant no key is out of range.
pub bucket_of-IsValid :
    (h : HttpCache) (key : Str) → IsValid h → (b : Bucket) × (bucket_of h key ≡ some b)
unfolding bucket_of
bucket_of-IsValid h key v =
    get_elem?-lt h.entries (bucket_index h.cache_buckets_num key)
      (omega (arith, v.sized, bucket_index-lt h.cache_buckets_num key v.nonzero))

replicate-Valid : (n m i : ℕ) → BucketsValid n i (replicate m [])
replicate-Valid n zero i = tt
replicate-Valid n (suc m) i = ((tt, tt), replicate-Valid n m (suc i))

length-replicate : (m : ℕ) (b : Bucket) → length (replicate m b) ≡ m
length-replicate zero b = refl
length-replicate (suc m) b = ap suc (length-replicate m b)

-- With a positive number of buckets the first NewHTTPCache of a process does not panic.
pub new_http_cache-made :
    (config : Config) (distributed_on : Bool)
    → 0 < pos_part config.cache_buckets_num
    → new_http_cache none config distributed_on ≡ some (made_http_cache none config distributed_on)
unfolding new_http_cache
new_http_cache-made config distributed_on p = ground arith

-- The first cache of a process is valid, if the configured number of buckets is positive.
pub made_http_cache-IsValid :
    (config : Config) (distributed_on : Bool)
    → 0 < pos_part config.cache_buckets_num
    → IsValid (made_http_cache none config distributed_on)
unfolding made_http_cache
made_http_cache-IsValid config distributed_on p =
    let n = magnitude config.cache_buckets_num in
    record { sized = length-replicate n []; nonzero = omega arith; placed = replicate-Valid n n 0 }

get-BucketsValid :
    (n i j : ℕ) (bs : List Bucket) {b : Bucket}
    → BucketsValid n i bs
    → get_elem? bs j ≡ some b
    → BucketValid n (i + j) b
get-BucketsValid n i j [] v h = absurd (ground arith)
get-BucketsValid n i zero (b ∷ bs) {b = x} (v, vs) h =
    let same : x ≡ b = ground arith in let index : i + 0 ≡ i = omega arith in rw (same, index) v
get-BucketsValid n i (suc j) (b ∷ bs) (v, vs) h =
    let index : i + suc j ≡ suc i + j = omega arith in
    rw index (get-BucketsValid n (suc i) j bs vs h)

set-BucketsValid :
    (n i j : ℕ) (bs : List Bucket) (b : Bucket)
    → BucketsValid n i bs
    → BucketValid n (i + j) b
    → BucketsValid n i (set bs j b)
set-BucketsValid n i j [] b v w = tt
set-BucketsValid n i zero (x ∷ bs) b (v, vs) w =
    let index : i + 0 ≡ i = omega arith in (rw index at w, vs)
set-BucketsValid n i (suc j) (x ∷ bs) b (v, vs) w =
    let index : i + suc j ≡ suc i + j = omega arith in
    (v, set-BucketsValid n (suc i) j bs b vs (rw index at w))

lookup-HasKey :
    (n i : ℕ) (k : Str) (b : Bucket)
    → All (λ p. (bucket_index n p.0 ≡ i) × HasKey p.0 p.1) b
    → HasKey k (slot_or_nil (lookup k b))
unfolding lookup
lookup-HasKey n i k [] a = tt
lookup-HasKey n i k ((j, s) ∷ b) (p, a) = elim (Bool-cases (str_eq j k)) [
  | inl hit ↦ rw hit (subst (λ x. HasKey x s) ((str_eq_iff j k).0 hit) p.1)
  | inr miss ↦ rw miss (lookup-HasKey n i k b a)
]

insert-All :
    (n i : ℕ) (k : Str) (s : Slot) (b : Bucket)
    → bucket_index n k ≡ i
    → HasKey k s
    → All (λ p. (bucket_index n p.0 ≡ i) × HasKey p.0 p.1) b
    → All (λ p. (bucket_index n p.0 ≡ i) × HasKey p.0 p.1) (insert k s b)
unfolding insert
insert-All n i k s [] e a all = ((e, a), tt)
insert-All n i k s ((j, t) ∷ b) e a (p, all) = elim (Bool-cases (str_eq j k)) [
  | inl hit ↦ rw hit ((e, a), all)
  | inr miss ↦ rw miss (p, insert-All n i k s b e a all)
]

-- A write of a slot whose entries have the key keeps the invariant.
with_slot-IsValid :
    (h : HttpCache) (k : Str) (s : Slot) {b : Bucket}
    → IsValid h
    → bucket_of h k ≡ some b
    → HasKey k s
    → IsValid (with_slot h k s b)
unfolding bucket_of
with_slot-IsValid h k s {b} v e a =
    let n = h.cache_buckets_num in
    let i = bucket_index n k in
    let (d, all) = get-BucketsValid n 0 i h.entries v.placed e in
    let index : 0 + i ≡ i = omega arith in
    record {
      sized = length-set h.entries i (insert k s b) ∙ v.sized;
      nonzero = v.nonzero;
      placed =
          set-BucketsValid n 0 i h.entries (insert k s b) v.placed
            (insert-HasDistinctKeys k s b d, insert-All n (0 + i) k s b (sym index) a all);
    }

-- The slot that a key has in its bucket.
pub slot-HasKey :
    (h : HttpCache) (k : Str) {b : Bucket}
    → IsValid h
    → bucket_of h k ≡ some b
    → HasKey k (slot_or_nil (lookup k b))
unfolding bucket_of
slot-HasKey h k {b} v e =
    let n = h.cache_buckets_num in
    lookup-HasKey n (0 + bucket_index n k) k b
      (get-BucketsValid n 0 (bucket_index n k) h.entries v.placed e).1

place-HasKey :
    (k : Str) (e : Entry) (xs : List Entry)
    → e.key ≡ k
    → All (λ x. x.key ≡ k) xs
    → All (λ x. x.key ≡ k) (place e xs)
unfolding place
place-HasKey k e [] p a = (p, tt)
place-HasKey k e (x ∷ xs) p (q, a) = elim (Bool-cases (match_vary e.request x)) [
  | inl hit ↦ rw hit (p, a)
  | inr miss ↦ rw miss (q, place-HasKey k e xs p a)
]

-- Put never panics on a valid cache, and leaves a valid one.
pub put-IsValid :
    (h : HttpCache) (e : Entry) (config : Config)
    → IsValid h
    → (g : HttpCache) × (ts : List Task) × (put h e config ≡ some (g, ts)) × IsValid g
unfolding put
put-IsValid h e config v =
    let (b, q) = bucket_of-IsValid h e.key v in
    (
      with_slot h e.key (place_slot e (slot_or_nil (lookup e.key b))) b,
      clean_later (e.expiration +ℤ config.stale_max_age) e
          ∷ clean_replaced (replaced e (slot_or_nil (lookup e.key b)).live),
      rw q,
      with_slot-IsValid h e.key (place_slot e (slot_or_nil (lookup e.key b))) v q (
          unfold place_slot in
          place-HasKey e.key e (slot_or_nil (lookup e.key b)).live refl (slot-HasKey h e.key v q)),
    )

-- Get never panics on a valid cache.
pub get-IsValid :
    (h : HttpCache) (key : Str) (req : Request) (stale : Bool) (clock : Clock)
    → IsValid h
    → (r : Option Entry) × (get h key req stale clock ≡ some r)
unfolding get
get-IsValid h key req stale clock v =
    let (b, q) = bucket_of-IsValid h key v in
    (find_entry (slot_or_nil (lookup key b)).live req stale clock, rw q)

-- cleanEntry never panics on a valid cache, whatever the storages and the cluster answer, and
-- leaves a valid one.
pub clean_entry-IsValid :
    (o : Outside) (h : HttpCache) (e : Entry)
    → IsValid h
    → (g : HttpCache) × (r : CleanResult) × (clean_entry o h e ≡ some (g, r)) × IsValid g
unfolding clean_entry
clean_entry-IsValid o h e v =
    let (b, q) = bucket_of-IsValid h e.key v in
    let slot = slot_or_nil (lookup e.key b) in
    elim (Option-cases (remove_entry e slot.live)) [
      | inl n ↦ (h, ([], none), ground (arith, q, n), v)
      | inr (rest, m) ↦ (
        with_slot h e.key (shrunk e rest slot) b,
        if h.is_distributed then distributed_clean o e.key e else (e ∷ [], o.clean_error e),
        ground (arith, q, m),
        with_slot-IsValid h e.key (shrunk e rest slot) v q
            (remove_entry-All (λ x. x.key ≡ e.key) e e slot.live m (slot-HasKey h e.key v q)).0,
      )
    ]
