-- ===== src/Store/Shared.antt =====
-- The cache of cache.go up to the order of the keys in a bucket and to what is left behind the
-- slices: two valid caches are one if they have the same template, number of buckets and cluster
-- flag, and hold the same entries under every key.
use mathlib.Core.Option
use mathlib.Core.Quot
use mathlib.Core.Quot.{Quot, Quot-set}
use cdp_cache.Base.{
  ℕ, Bool, arith, Option-cases, ◌≡◌, ◌≢◌, refl, sym, ◌∙◌, inl, inr, Option, some, List, Bool-cases,
}
use cdp_cache.Base.Text.{Str, str_eq, str_eq_iff, str_eq_of_ne}
use cdp_cache.Config.{Config}
use cdp_cache.Entry.{Entry}
use cdp_cache.Store.{bucket_of, HttpCache, Task, put}
use cdp_cache.Store.Cleaning.{remove_entry, Outside, Cleaned, clean_entry}
use cdp_cache.Store.Lookup.{slot_of}
use cdp_cache.Store.Invariant.{IsValid, put-IsValid, clean_entry-IsValid}
use cdp_cache.Store.Spec.{
  Map, live_list, slot_of-IsValid, Holds, Holds-put, Holds-clean, set_key, with_entry,
  without_entry,
}

abbrev pub ValidCache : Type 0
ValidCache = (h : HttpCache) × IsValid h

-- The entries under each key.
unfoldable pub view : HttpCache → Map
view h j = live_list (slot_of h j)

-- The fields that no call changes.
abbrev pub settings : HttpCache → Str × (ℕ × Bool)
settings h = (h.cache_key_template, (h.cache_buckets_num, h.is_distributed))

abbrev pub SameView : ValidCache → ValidCache → Type 0
SameView a b = (settings a.0 ≡ settings b.0) × ((j : Str) → view a.0 j ≡ view b.0 j)

abbrev pub SharedCache : Type 0
SharedCache = Quot SameView

-- A call that changes the cache: Put, or cleanEntry.
pub data Change : Type 0 where
  stores : Entry → Config → Change
  removes : Entry → Change

abbrev pub key_of : Change → Str
key_of (stores e config) = e.key
key_of (removes e) = e.key

-- The cache after the call; `none` is a panic.
unfoldable pub changed : Outside → Change → HttpCache → Option HttpCache
changed o (stores e config) h = Option.map (λ (r : HttpCache × List Task). r.0) (put h e config)
changed o (removes e) h = Option.map (λ (r : Cleaned). r.0) (clean_entry o h e)

view-Holds : (h : HttpCache) → IsValid h → Holds h (view h)
unfolding view
view-Holds h v j = let (s, q) = slot_of-IsValid h j v in (s, q, rw q refl)

Holds-view : (h : HttpCache) (m : Map) (j : Str) → Holds h m → view h j ≡ m j
unfolding view
Holds-view h m j a = let (s, q, l) = a j in rw q l

-- The entries under the key of a call, after it.
abbrev pub after : Change → List Entry → List Entry
after (stores e config) es = with_entry e es
after (removes e) es = without_entry e es

put-settings :
    (h : HttpCache) (e : Entry) (config : Config) {r : HttpCache × List Task}
    → put h e config ≡ some r
    → settings r.0 ≡ settings h
unfolding put
put-settings h e config {r} p = elim (Option-cases (bucket_of h e.key)) [
  | inl n ↦ absurd (ground (arith, p, n))
  | inr (b, q) ↦ ground (arith, p, q)
]

clean_entry-settings :
    (o : Outside) (h : HttpCache) (e : Entry) {r : Cleaned}
    → clean_entry o h e ≡ some r
    → settings r.0 ≡ settings h
unfolding clean_entry slot_of
clean_entry-settings o h e {r} p = elim (Option-cases (bucket_of h e.key)) [
  | inl n ↦ absurd (ground (arith, p, n))
  | inr (b, q) ↦ elim (Option-cases (remove_entry e (live_list (slot_of h e.key)))) [
    | inl n ↦ ground (arith, p, q, n)
    | inr (rest, m) ↦ ground (arith, p, q, m)
  ]
]

-- No call panics on a valid cache; it leaves a valid one, and changes the entries of its key only.
pub valid_change :
    (o : Outside) (c : Change) (h : HttpCache)
    → IsValid h
    → (g : HttpCache) × (changed o c h ≡ some g)
      × IsValid g
      × (settings g ≡ settings h)
      × ((j : Str) → view g j ≡ set_key (key_of c) (after c (view h (key_of c))) (view h) j)
unfolding changed
valid_change o (stores e config) h v =
    let (g, ts, p, w) = put-IsValid h e config v in
    let a = Holds-put h (view h) e config (view-Holds h v) p in
    (g, rw p refl, w, put-settings h e config p, λ j. Holds-view g _ j a)
valid_change o (removes e) h v =
    let (g, r, p, w) = clean_entry-IsValid o h e v in
    let a = Holds-clean o h (view h) e (view-Holds h v) p in
    (g, rw p refl, w, clean_entry-settings o h e p, λ j. Holds-view g _ j a)

-- The call on a valid cache.
abbrev pub change_valid : Outside → Change → ValidCache → ValidCache
change_valid o c h = let (g, p, w, same, s) = valid_change o c h.0 h.1 in (g, w)

-- It is the call of the code.
pub change_valid-changed :
    (o : Outside) (c : Change) (h : ValidCache) → changed o c h.0 ≡ some (change_valid o c h).0
change_valid-changed o c h = (valid_change o c h.0 h.1).1

view-change_valid :
    (o : Outside) (c : Change) (h : ValidCache) (j : Str)
    → view (change_valid o c h).0 j
      ≡ set_key (key_of c) (after c (view h.0 (key_of c))) (view h.0) j
view-change_valid o c h j = (valid_change o c h.0 h.1).4 j

settings-change_valid :
    (o : Outside) (c : Change) (h : ValidCache) → settings (change_valid o c h).0 ≡ settings h.0
settings-change_valid o c h = (valid_change o c h.0 h.1).3

change_valid-SameView :
    (o : Outside) (c : Change) (a b : ValidCache)
    → SameView a b
    → SameView (change_valid o c a) (change_valid o c b)
change_valid-SameView o c a b (equal, same) = (
  settings-change_valid o c a ∙ equal ∙ sym (settings-change_valid o c b),
  λ j. rw (view-change_valid o c a j, view-change_valid o c b j, same (key_of c), same j) refl,
)

-- A call on the cache as its callers see it.
pub change : Outside → Change → SharedCache → SharedCache
change o c =
    Quot.lift Quot-set (λ h. Quot.mk (change_valid o c h))
      (λ a b same. Quot.sound (change_valid-SameView o c a b same))

commute_view :
    (o : Outside) (c d : Change) (h : ValidCache)
    → key_of c ≢ key_of d
    → (j : Str)
    → view (change_valid o c (change_valid o d h)).0 j
      ≡ view (change_valid o d (change_valid o c h)).0 j
commute_view o c d h n j =
    rw
      (
        view-change_valid o c (change_valid o d h) j,
        view-change_valid o d (change_valid o c h) j,
        view-change_valid o d h j,
        view-change_valid o c h j,
        view-change_valid o d h (key_of c),
        view-change_valid o c h (key_of d),
        str_eq_of_ne n,
        str_eq_of_ne (λ (e : key_of d ≡ key_of c). n (sym e)),
      )
      (elim (Bool-cases (str_eq (key_of c) j)) [
        | inl hit ↦
            rw
              (
                hit,
                str_eq_of_ne (λ (e : key_of d ≡ j). n ((str_eq_iff (key_of c) j).0 hit ∙ sym e)),
              )
              refl
        | inr miss ↦ rw miss refl
      ])

commute_valid :
    (o : Outside) (c d : Change) (h : ValidCache)
    → key_of c ≢ key_of d
    → SameView (change_valid o c (change_valid o d h)) (change_valid o d (change_valid o c h))
commute_valid o c d h n = (
  settings-change_valid o c (change_valid o d h)
      ∙ settings-change_valid o d h
      ∙ sym (settings-change_valid o d (change_valid o c h) ∙ settings-change_valid o c h),
  commute_view o c d h n,
)

-- Two calls of Put or cleanEntry for different keys, in either order, on a valid cache, whatever the
-- storages and the cluster answer, lead to the same cache up to the order of keys in a bucket and to
-- what is left behind the slices: with the same template, number of buckets and cluster flag, and
-- the same entries under every key.
pub change_comm :
    (o : Outside) (c d : Change)
    → key_of c ≢ key_of d
    → (q : SharedCache) → change o c (change o d q) ≡ change o d (change o c q)
unfolding change
change_comm o c d n = Quot.ind (λ q. Quot-set _ _) (λ h. Quot.sound (commute_valid o c d h n))
