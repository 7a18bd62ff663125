-- ===== src/Backend/Redis/Tests.antt =====
-- The redis storage over a client that is a plain map.
use cdp_cache.Base.{◌≡◌, refl, false, Option, none, some, [], ◌∷◌, arith, if◌then◌else◌}
use cdp_cache.Base.Int.{pos, ◌+ℤ◌}
use cdp_cache.Base.Text.{Str, codes, str_eq, str_eq_refl, trim_space, split_byte}
use cdp_cache.Base.Assoc.{lookup, insert}
use cdp_cache.Header
use cdp_cache.Header.{canonical_key}
use cdp_cache.Bucket.{bucket_index, checksum_ieee}
use cdp_cache.Entry.{key_with_respect_vary, match_vary, is_fresh}
use cdp_cache.Store.{HttpCache, clean_later, clean_body, bucket_of, put, get, replaced}
use cdp_cache.Store.Lookup.{slot_of}
use cdp_cache.Store.Invariant.{IsValid}
use cdp_cache.Store.Tests.{page, early, english, default, holding}
use cdp_cache.Backend.Redis.{RedisClient, Forgets, new_redis_backend, close, clean, get_reader}
use cdp_cache.Backend.Redis.Reads.{write_all}
use cdp_cache.Backend.Redis.Replaced.{body_of, replaced_body_lost}

abbrev Map : Type 0
Map = Str → Option Str

abbrev plain : RedisClient Map
plain = record {
  set = λ m k v ttl. ((λ j. if str_eq k j then some v else m j), none);
  del = λ m k. ((λ j. if str_eq k j then none else m j), none);
  get = λ m k. m k;
}

plain-Forgets : Forgets plain
plain-Forgets = record { get-del = λ m k e. rw (str_eq_refl k) refl }

holding_english-IsValid : IsValid (holding (english ∷ []))
unfolding bucket_index checksum_ieee
holding_english-IsValid = record {
  sized = refl;
  nonzero = omega arith;
  placed = (((tt, tt), ((refl, (refl, tt)), tt)), tt);
}

redis : Unit {0}
unfolding close clean get_reader new_redis_backend write_all key_with_respect_vary match_vary
    replaced slot_of bucket_of lookup insert str_eq bucket_index checksum_ieee Header.get
    canonical_key trim_space split_byte is_fresh
redis = tt

-- A second version of the page takes the place of the first.
replaced_body_lost_example :
    (g : HttpCache) × (put (holding (english ∷ [])) (page 4 "en") default
      ≡ some (
        g,
        clean_later ((page 4 "en").expiration +ℤ default.stale_max_age) (page 4 "en")
            ∷ clean_body english
            ∷ [],
      ))
    × (get g (codes "k") (page 4 "en").request false early ≡ some (some (page 4 "en")))
    × (get_reader plain
          (clean plain
            (close plain (λ j. none) (pos 1) (body_of (page 4 "en") (codes "new" ∷ []))).0
            (body_of english (codes "old" ∷ []))).0
          (body_of (page 4 "en") (codes "new" ∷ []))
        ≡ none)
unfolding redis
replaced_body_lost_example =
    replaced_body_lost plain plain-Forgets (holding (english ∷ [])) (page 4 "en") english default
      (record { live = english ∷ []; vacated = [] }) false early (λ j. none) (pos 1)
      (codes "new" ∷ []) (codes "old" ∷ []) holding_english-IsValid refl refl refl (λ n. refl) refl
