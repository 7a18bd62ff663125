-- ===== src/Backend/Redis/Replaced.antt =====
-- Put of cache.go cleans the body of the entry that it replaces in a goroutine of its own. With the
-- storage of backends/redis.go that body has the key of the new one.
use cdp_cache.Base.{◌≡◌, refl, sym, ap, ◌∙◌, Bool, none, some, List, [], ◌∷◌}
use cdp_cache.Base.Int.{ℤ, ◌+ℤ◌}
use cdp_cache.Base.Text.{Str}
use cdp_cache.Config.{Config}
use cdp_cache.Status.{Clock}
use cdp_cache.Entry.{Entry, key_with_respect_vary}
use cdp_cache.Store.{HttpCache, Slot, clean_later, clean_body, put, get, replaced}
use cdp_cache.Store.Lookup.{slot_of, get-put}
use cdp_cache.Store.Place.{StaysFresh}
use cdp_cache.Store.Invariant.{IsValid, put-IsValid}
use cdp_cache.Store.Bodies.Effects.{put-tasks}
use cdp_cache.Backend.Redis.{
  RedisClient, Forgets, RedisBackend, new_redis_backend, close, clean, get_reader,
}
use cdp_cache.Backend.Redis.Reads.{write_all, write_all-key}

-- The storage of an entry, with the writes of its body.
abbrev pub body_of : Entry → List Str → RedisBackend
body_of e ps = write_all ps (new_redis_backend (key_with_respect_vary e) e.expiration)

body_of-key : (e : Entry) (ps : List Str) → (body_of e ps).key ≡ key_with_respect_vary e
unfolding new_redis_backend
body_of-key e ps = write_all-key ps (new_redis_backend (key_with_respect_vary e) e.expiration)

clean-close :
    {C : Type 0} (client : RedisClient C)
    → Forgets client
    → (c : C) (new old : RedisBackend) → old.key ≡ new.key
    → (clean client c old).1 ≡ none
    → get_reader client (clean client c old).0 new ≡ none
unfolding clean get_reader
clean-close client lawful c new old same fine =
    ap (client.get (client.del c old.key).0) (sym same) ∙ lawful.get-del c old.key fine

-- On a valid cache, if the new entry takes the place of an old one with the same storage key, Put
-- starts the Clean of the old body, and Get finds the new entry, as long as it is fresh; but when
-- that Clean comes after the Close of the new body, and reports no error, the reader of the new body
-- finds nothing.
pub replaced_body_lost :
    {C : Type 0} (client : RedisClient C)
    → Forgets client
    → (h : HttpCache) (new old : Entry) (config : Config) (s : Slot) (stale : Bool) (clock : Clock)
      (c : C) (now : ℤ) (ps qs : List Str)
    → IsValid h
    → slot_of h new.key ≡ some s
    → replaced new s.live ≡ some old
    → key_with_respect_vary old ≡ key_with_respect_vary new
    → StaysFresh new clock
    → (clean client (close client c now (body_of new ps)).0 (body_of old qs)).1 ≡ none
    → (g : HttpCache) × (put h new config
        ≡ some (g, clean_later (new.expiration +ℤ config.stale_max_age) new ∷ clean_body old ∷ []))
      × (get g new.key new.request stale clock ≡ some (some new))
      × (get_reader client
            (clean client (close client c now (body_of new ps)).0 (body_of old qs)).0
            (body_of new ps)
          ≡ none)
replaced_body_lost client lawful h new old config s stale clock c now ps qs v q r same f fine =
    let (g, ts, p, w) = put-IsValid h new config v in
    let tasks : ts
        ≡ clean_later (new.expiration +ℤ config.stale_max_age) new ∷ clean_body old ∷ [] =
      put-tasks h new config s q p ∙ rw r refl in
    (
      g,
      p ∙ ap (λ t. some (g, t)) tasks,
      get-put h new config stale clock p f,
      clean-close client lawful (close client c now (body_of new ps)).0 (body_of new ps)
          (body_of old qs) (body_of-key old qs ∙ same ∙ sym (body_of-key new ps)) fine,
    )
