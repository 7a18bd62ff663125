-- ===== src/Storage/Certificates.antt =====
-- What extends/storage/consul.go promises to certmagic: a map from keys to values.
-- Parameter: a store of consul that answers every call without an error, with its contents.
use cdp_cache.Base.{
  ◌≡◌, refl, sym, ap, ◌∙◌, true, Option, none, some, List, [], ◌∷◌, All, Bool-cases, inl, inr,
  if◌then◌else◌, length,
}
use cdp_cache.Base.Text.{Str, str_eq, str_eq_refl, str_eq_sound, str_eq_of_ne, ne_of_str_eq}
use cdp_cache.Base.Assoc.{lookup, insert, erase, lookup-insert, lookup-erase}
use cdp_cache.Storage.{
  StorageConfig, KeyValue, Answer, done, value, size, not_exist, value_answer, exists_answer,
  generate_key, store, load, delete, delete_found, exists, stat, put_answer, delete_answer,
}
use cdp_cache.Storage.Keys.{ArePlain, generate_key-injective}

pub record IsReliable {C : Type 0} (kv : KeyValue C) (content : C → Str → Option Str) : Type 0 where
  pub gets : (c : C) (k : Str) → kv.get c k ≡ inl (content c k)
  pub puts : (c : C) (k v : Str) → (kv.put c k v).1 ≡ none
  pub put_content :
      (c : C) (k v j : Str)
      → content (kv.put c k v).0 j ≡ (if str_eq k j then some v else content c j)
  pub deletes : (c : C) (k v : Str) → content c k ≡ some v → (kv.delete_cas c k).1 ≡ inl true
  pub delete_content :
      (c : C) (k v j : Str)
      → content c k ≡ some v
      → content (kv.delete_cas c k).0 j ≡ (if str_eq k j then none else content c j)

-- The calls of certmagic.
pub data Call : Type 0 where
  stores : Str → Str → Call
  loads : Str → Call
  removes : Str → Call
  asks : Str → Call
  stats : Str → Call

abbrev pub key_of : Call → Str
key_of (stores k v) = k
key_of (loads k) = k
key_of (removes k) = k
key_of (asks k) = k
key_of (stats k) = k

-- The map: certificates by their own keys. A Delete of a missing key is an error, although the
-- comment on Delete wants one only if the key still exists when the method returns.
abbrev pub Certificates : Type 0
Certificates = List (Str × Str)

abbrev remove_from : Certificates → Str → Option Str → Certificates × Answer
remove_from m k none = (m, not_exist)
remove_from m k (some v) = (erase k m, done)

unfoldable pub ideal : Call → Certificates → Certificates × Answer
ideal (stores k v) m = (insert k v m, done)
ideal (loads k) m = (m, value_answer value (inl (lookup k m)))
ideal (removes k) m = remove_from m k (lookup k m)
ideal (asks k) m = (m, exists_answer (inl (lookup k m)))
ideal (stats k) m = (m, value_answer (λ v. size (length v)) (inl (lookup k m)))

unfoldable pub run_ideal : List Call → Certificates → List Answer
run_ideal [] m = []
run_ideal (call ∷ calls) m = let (m', a) = ideal call m in a ∷ run_ideal calls m'

module _ {C : Type 0} (kv : KeyValue C) (config : StorageConfig) where
  unfoldable pub perform : Call → C → C × Answer
  perform (stores k v) c = store kv config c k v
  perform (loads k) c = (c, load kv config c k)
  perform (removes k) c = delete kv config c k
  perform (asks k) c = (c, exists kv config c k)
  perform (stats k) c = (c, stat kv config c k)

  unfoldable pub run_calls : List Call → C → List Answer
  run_calls [] c = []
  run_calls (call ∷ calls) c = let (c', a) = perform call c in a ∷ run_calls calls c'

module _ {C : Type 0} (kv : KeyValue C) (content : C → Str → Option Str) (config : StorageConfig)
    (reliable : IsReliable kv content) (plain : ArePlain config.key_prefix) where
  -- The store has the map's certificates below the prefix.
  abbrev pub Holds : C → Certificates → Type 0
  Holds c m = (k : Str) → ArePlain k → content c (generate_key config k) ≡ lookup k m

  same_test :
      (j k : Str)
      → ArePlain j
      → ArePlain k
      → str_eq (generate_key config j) (generate_key config k) ≡ str_eq j k
  same_test j k a b = elim (Bool-cases (str_eq j k)) [
    | inl h ↦ rw (h, str_eq_sound j k h) (str_eq_refl (generate_key config k))
    | inr h ↦
        rw h
          (str_eq_of_ne (λ e. ne_of_str_eq j k h (generate_key-injective config j k plain a b e)))
  ]

  stored :
      (c : C) (m : Certificates)
      → Holds c m
      → (k v : Str) → ArePlain k
      → Holds (kv.put c (generate_key config k) v).0 (insert k v m)
  stored c m h k v a j b =
      reliable.put_content c (generate_key config k) v (generate_key config j)
      ∙ ap (λ t. if t then some v else content c (generate_key config j)) (same_test k j a b)
      ∙ ap (λ o. if str_eq k j then some v else o) (h j b)
      ∙ sym (lookup-insert k j v m)

  removed :
      (c : C) (m : Certificates)
      → Holds c m
      → (k : Str) → ArePlain k
      → (o : Option Str) → lookup k m ≡ o
      → ((delete_found kv config c k (inl o)).1 ≡ (remove_from m k o).1)
        × Holds (delete_found kv config c k (inl o)).0 (remove_from m k o).0
  removed c m h k a none e = (refl, h)
  removed c m h k a (some v) e =
      let there = h k a ∙ e in
      (
        ap delete_answer (reliable.deletes c (generate_key config k) v there),
        λ j b.
            reliable.delete_content c (generate_key config k) v (generate_key config j) there
            ∙ ap (λ t. if t then none else content c (generate_key config j)) (same_test k j a b)
            ∙ ap (λ o. if str_eq k j then none else o) (h j b)
            ∙ sym (lookup-erase k j m),
      )

  -- A call answers as the map does, and leaves what the map becomes.
  call_as_ideal :
      (call : Call) (c : C) (m : Certificates)
      → ArePlain (key_of call)
      → Holds c m
      → ((perform kv config call c).1 ≡ (ideal call m).1)
        × Holds (perform kv config call c).0 (ideal call m).0
  unfolding perform ideal store load delete exists stat
  call_as_ideal (stores k v) c m a h =
      (ap put_answer (reliable.puts c (generate_key config k) v), λ j b. stored c m h k v a j b)
  call_as_ideal (loads k) c m a h = (rw (reliable.gets c (generate_key config k), h k a) refl, h)
  call_as_ideal (removes k) c m a h =
      rw (reliable.gets c (generate_key config k), h k a) (removed c m h k a (lookup k m) refl)
  call_as_ideal (asks k) c m a h = (rw (reliable.gets c (generate_key config k), h k a) refl, h)
  call_as_ideal (stats k) c m a h = (rw (reliable.gets c (generate_key config k), h k a) refl, h)

  -- Over a reliable store, with a prefix and keys of names joined by single slashes, any sequence of
  -- Store, Load, Delete, Exists and Stat answers as a map from keys to values does, in which the
  -- Delete of a key that is not there answers fs.ErrNotExist, as the code does and other than its
  -- comment says.
  pub storage_refines_map :
      (calls : List Call) (c : C) (m : Certificates)
      → All (λ call. ArePlain (key_of call)) calls
      → Holds c m
      → run_calls kv config calls c ≡ run_ideal calls m
  unfolding run_calls run_ideal
  storage_refines_map [] c m a h = refl
  storage_refines_map (call ∷ calls) c m (p, a) h =
      let (e, g) = call_as_ideal call c m p h in
      λ i. e i ∷ storage_refines_map calls (perform kv config call c).0 (ideal call m).0 a g i
