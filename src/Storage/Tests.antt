-- ===== src/Storage/Tests.antt =====
-- The certificate storage over a store that is a plain map.
use cdp_cache.Base.{
  ℕ, ◌≡◌, refl, sym, ap, ◌∙◌, Bool, true, false, Option, none, some, List, [], ◌∷◌, ◌++◌, arith,
  inl, inr, ◌⊎◌, if◌then◌else◌,
}
use cdp_cache.Base.Text.{Str, codes, str_eq, ne_of_str_eq, split_byte, contains_byte}
use cdp_cache.Base.Split.{Lacks, contains_byte-Lacks}
use cdp_cache.Base.Assoc.{lookup, insert, erase}
use cdp_cache.Storage.{
  StorageConfig, default_storage_config, KeyValue, done, value, not_exist, listed, list, HeldLocks,
  lock, clean, clean_names,
}
use cdp_cache.Storage.Keys.{ArePlain}
use cdp_cache.Storage.Certificates.{
  IsReliable, stores, loads, removes, run_ideal, ideal, run_calls, storage_refines_map,
}
use cdp_cache.Storage.Listing.{list_forgets_names}
use cdp_cache.Storage.Locks.{LockCall, locks, unlocks, after_calls, second_lock_does_not_wait}

abbrev Map : Type 0
Map = Str → Option Str

-- The keys of the listing are those of a fixed directory.
abbrev store_of : List Str → KeyValue Map
store_of ks = record {
  put = λ m k v. ((λ j. if str_eq k j then some v else m j), none);
  get = λ m k. inl (m k);
  delete_cas = λ m k. ((λ j. if str_eq k j then none else m j), inl true);
  keys = λ m k. inl ks;
}

content : Map → Str → Option Str
content m k = m k

store_of-IsReliable : IsReliable (store_of []) content
unfolding content
store_of-IsReliable = record {
  gets = λ m k. refl;
  puts = λ m k v. refl;
  put_content = λ m k v j. refl;
  deletes = λ m k v e. refl;
  delete_content = λ m k v j e. refl;
}

abbrev default : StorageConfig
default = default_storage_config

prefix-ArePlain : ArePlain (codes "_consul_cert_")
unfolding split_byte str_eq
prefix-ArePlain = (refl, tt)

abbrev site : Str
site = codes "acme/site.crt"

site-ArePlain : ArePlain site
unfolding split_byte str_eq
site-ArePlain = (refl, (refl, tt))

-- path.Clean keeps what Go keeps.
clean_test :
    (clean (codes "/a/./b//../c/") ≡ codes "/a/c")
    × ((clean (codes "../a/../../b") ≡ codes "../../b") × (clean (codes "a/..") ≡ codes "."))
unfolding clean clean_names split_byte str_eq cdp_cache.Base.Text.join
    cdp_cache.Base.Text.has_prefix
clean_test = (refl, (refl, refl))

abbrev empty : Map
empty k = none

storage_refines_map_example :
    run_calls
      (store_of [])
      default
      (stores site (codes "pem") ∷ loads site ∷ removes site ∷ loads site ∷ [])
      empty
    ≡ done ∷ value (codes "pem") ∷ done ∷ not_exist ∷ []
unfolding run_ideal ideal lookup insert erase str_eq content
storage_refines_map_example =
    storage_refines_map (store_of []) content default store_of-IsReliable prefix-ArePlain
      (stores site (codes "pem") ∷ loads site ∷ removes site ∷ loads site ∷ []) empty []
      (site-ArePlain, (site-ArePlain, (site-ArePlain, (site-ArePlain, tt)))) (λ k p. refl)

prefix-Lacks : Lacks 47 (codes "_consul_cert_")
unfolding contains_byte
prefix-Lacks = contains_byte-Lacks 47 (codes "_consul_cert_") refl

acme-ArePlain : ArePlain (codes "acme")
unfolding split_byte str_eq
acme-ArePlain = (refl, tt)

-- Two certificates in the directory: the list has neither.
list_forgets_names_example :
    list
      (store_of (codes "_consul_cert_/acme/a.crt" ∷ codes "_consul_cert_/acme/b.crt" ∷ []))
      default
      empty
      (codes "acme")
      false
    ≡ listed (codes "acme/_consul_cert_" ∷ [])
list_forgets_names_example =
    list_forgets_names
      (store_of (codes "_consul_cert_/acme/a.crt" ∷ codes "_consul_cert_/acme/b.crt" ∷ [])) default
      empty (codes "acme") (codes "acme/a.crt") (codes "acme/b.crt" ∷ []) prefix-Lacks
      prefix-ArePlain acme-ArePlain (λ e. omega arith) refl

abbrev unlocked : HeldLocks
unlocked = record { held = []; awaited = [] }

-- Another key is locked and given back in between.
abbrev between : List LockCall
between = locks (λ k. none) (codes "b") ∷ unlocks (λ k. none) (codes "b") ∷ []

second_lock_does_not_wait_example :
    let t = after_calls default between (lock (λ k. none) default site unlocked).0 in
    (lookup site t.held ≡ some tt) × (lock (λ k. some (codes "timeout")) default site t ≡ (t, none))
unfolding str_eq
second_lock_does_not_wait_example =
    second_lock_does_not_wait (λ k. none) (λ k. some (codes "timeout")) default site unlocked
      between (unfold lock lookup in refl) (tt, (ne_of_str_eq (codes "b") site refl, tt))
