-- ===== src/Store/Tests.antt =====
-- Runs of the cache, and its theorems at concrete caches.
use mathlib.Core.Quot
use cdp_cache.Base.{ℕ, ◌≡◌, refl, ◌↔◌, true, false, String, none, some, List, [], ◌∷◌, arith}
use cdp_cache.Base.Int.{pos, ◌+ℤ◌}
use cdp_cache.Base.Text.{codes, str_eq, ne_of_str_eq, split_byte, trim_space}
use cdp_cache.Base.Assoc.{lookup, insert}
use cdp_cache.Header
use cdp_cache.Header.{Header, canonical_key}
use cdp_cache.Http.{Request}
use cdp_cache.Config.{Config, get_default_config}
use cdp_cache.Status.{Clock}
use cdp_cache.Bucket.{bucket_index, checksum_ieee}
use cdp_cache.Entry.{Entry, is_fresh, match_vary}
use cdp_cache.Store.{
  HttpCache, Slot, Task, new_http_cache, made_http_cache, bucket_of, find_entry, get, place,
  replaced, place_slot, put, keys,
}
use cdp_cache.Store.Cleaning.{
  Outside, leads, CleanResult, remove_entry, clean_entry, cells, del_loop, del,
}
use cdp_cache.Store.Lookup.{slot_of}
use cdp_cache.Store.Invariant.{IsValid}
use cdp_cache.Store.Listing.{Listed, HasEntry, keys_iff}
use cdp_cache.Store.Skipped.{del_skips_second}
use cdp_cache.Store.Reload.{reload_out_of_range}
use cdp_cache.Store.Spec.{
  Operation, stores, removes, asks, answers, map_answers, answers-map_answers,
}
use cdp_cache.Store.Shared
use cdp_cache.Store.Shared.{change, change_comm}
use cdp_cache.Store.History.{puts, cleans, dels, run, run-IsValid}

store : Unit {0}
unfolding str_eq split_byte trim_space lookup insert canonical_key Header.get get_default_config
    bucket_index checksum_ieee is_fresh match_vary bucket_of find_entry get place replaced
    place_slot put map_answers remove_entry clean_entry cells del_loop del slot_of keys
store = tt

abbrev ask : String → Request
ask lang = record {
  method = codes "GET";
  path = codes "/";
  header = (codes "Accept-Language", codes lang ∷ []) ∷ [];
}

abbrev varying : Header
varying = (codes "Vary", codes "Accept-Language" ∷ []) ∷ []

-- A variant of the page under the key "k", good until time 9.
abbrev pub page : ℕ → String → Entry
page n lang = record {
  ident = n;
  is_public = true;
  expiration = pos 9;
  key = codes "k";
  request = ask lang;
  code = 200;
  header_map = varying;
  snap_header = varying;
}

abbrev pub holding : List Entry → HttpCache
holding es = record {
  cache_key_template = [];
  cache_buckets_num = 1;
  entries = ((codes "k", record { live = es; vacated = [] }) ∷ []) ∷ [];
  is_distributed = false;
}

abbrev pub calm : Outside
calm = record { clean_error = λ _. none; new_lock_error = λ _. none; lock_answer = λ _. leads }

abbrev pub early : Clock
early n = pos 1

abbrev pub english : Entry
english = page 1 "en"

abbrev german : Entry
german = page 2 "de"

abbrev french : Entry
french = page 3 "fr"

abbrev pub default : Config
default = get_default_config

-- Two variants side by side; the third replaces the first.
put_test :
    put (holding (english ∷ german ∷ [])) (page 4 "en") default
    ≡ some (
      record (holding []) {
        entries =
            ((codes "k", record { live = page 4 "en" ∷ german ∷ []; vacated = [] }) ∷ []) ∷ [];
      },
      Task.clean_later (pos 9) (page 4 "en") ∷ Task.clean_body english ∷ [],
    )
unfolding store ◌+ℤ◌
put_test = refl

del_test :
    del calm (codes "k") early (holding (english ∷ german ∷ french ∷ []))
    ≡ some (
      record (holding []) {
        entries =
            ((codes "k", record { live = german ∷ []; vacated = french ∷ french ∷ [] }) ∷ []) ∷ [];
      },
      (english ∷ french ∷ [], none),
    )
unfolding store
del_test = refl

keys_iff_example :
    Listed (codes "k") (keys (holding (english ∷ [])))
    ↔ ((s : Slot) × (slot_of (holding (english ∷ [])) (codes "k") ≡ some s) × HasEntry s)
unfolding store
keys_iff_example = keys_iff (holding (english ∷ [])) (codes "k") (record {
  sized = refl;
  nonzero = omega arith;
  placed = (((tt, tt), ((refl, (refl, tt)), tt)), tt);
})

del_skips_second_example :
    (g : HttpCache) × (r : CleanResult) × (del calm
        (codes "k")
        early
        (holding (english ∷ german ∷ french ∷ []))
      ≡ some (g, r))
    × (get g (codes "k") (ask "de") false early ≡ some (some german))
unfolding store
del_skips_second_example =
    del_skips_second calm (holding (english ∷ german ∷ french ∷ [])) english german french [] []
      (codes "k") early early false refl refl (((λ e. omega arith), refl), tt) refl (λ n. refl)

-- The checksum of "k" is odd: it lies in the second of two buckets, and beyond a single one.
abbrev pub two_buckets : Config
two_buckets = record default { cache_buckets_num = pos 2 }

reload_out_of_range_example :
    (get (made_http_cache (some ([] ∷ [])) two_buckets false) (codes "k") (ask "en") false early
      ≡ none)
    × (put (made_http_cache (some ([] ∷ [])) two_buckets false) english default ≡ none)
unfolding store
reload_out_of_range_example =
    reload_out_of_range ([] ∷ []) two_buckets default false false (ask "en") early english
      (omega arith)

run-IsValid_example :
    (h : HttpCache) × (g : HttpCache) × (new_http_cache none two_buckets false ≡ some h)
    × (run calm h
          (puts english default ∷ puts german default ∷ dels (codes "k") early ∷ cleans german ∷ [])
        ≡ some g)
    × IsValid g
run-IsValid_example =
    run-IsValid calm two_buckets false
      (puts english default ∷ puts german default ∷ dels (codes "k") early ∷ cleans german ∷ [])
      (omega arith)

-- Two variants are stored, one of them twice, and one purge comes between.
abbrev operations : List Operation
operations =
    stores english default
    ∷ stores german default
    ∷ stores (page 4 "en") default
    ∷ asks (codes "k") (ask "en") false early
    ∷ removes german
    ∷ asks (codes "k") (ask "de") true early
    ∷ []

answers-map_answers_example :
    (h : HttpCache) × (new_http_cache none two_buckets false ≡ some h)
    × (answers calm h operations ≡ some (map_answers (λ j. []) operations))
answers-map_answers_example = answers-map_answers calm two_buckets false operations (omega arith)

-- The Get of the entry that took the first one's place, and of one that was removed.
map_answers_test : map_answers (λ j. []) operations ≡ some (page 4 "en") ∷ none ∷ []
unfolding store
map_answers_test = refl

holding-IsValid : IsValid (holding [])
unfolding store
holding-IsValid = record {
  sized = refl;
  nonzero = omega arith;
  placed = (((tt, tt), ((refl, tt), tt)), tt);
}

-- An entry under another key.
abbrev other : Entry
other = record english { ident = 9; key = codes "j" }

change_comm_example :
    change calm
      (Shared.stores english default)
      (change calm (Shared.stores other default) (Quot.mk (holding [], holding-IsValid)))
    ≡ change calm
        (Shared.stores other default)
        (change calm (Shared.stores english default) (Quot.mk (holding [], holding-IsValid)))
unfolding str_eq
change_comm_example =
    change_comm calm (Shared.stores english default) (Shared.stores other default)
      (ne_of_str_eq (codes "k") (codes "j") refl) (Quot.mk (holding [], holding-IsValid))
