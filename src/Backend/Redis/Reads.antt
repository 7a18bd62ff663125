-- ===== src/Backend/Redis/Reads.antt =====
-- What is read of a body that went through RedisBackend of backends/redis.go.
use cdp_cache.Base.{
  ◌≡◌, refl, sym, append_assoc, length, ◌∙◌, ap, some, none, List, [], ◌∷◌, ◌++◌, append-nil,
}
use cdp_cache.Base.Int.{ℤ}
use cdp_cache.Base.Text.{Str, concat}
use cdp_cache.Backend.Redis.{
  RedisBackend, RedisClient, IsStore, new_redis_backend, write, backend_length, close, get_reader,
}

-- The writes of a body, one after the other.
unfoldable pub write_all : List Str → RedisBackend → RedisBackend
write_all [] r = r
write_all (p ∷ ps) r = write_all ps (write r p).0

write_all-content :
    (ps : List Str) (r : RedisBackend)
    → ((write_all ps r).content ≡ r.content ++ concat ps) × ((write_all ps r).key ≡ r.key)
unfolding write_all concat write
write_all-content [] r = (sym (append-nil r.content), refl)
write_all-content (p ∷ ps) r =
    let (c, k) = write_all-content ps (record r { content = r.content ++ p }) in
    (c ∙ append_assoc r.content p (concat ps), k)

-- A body that is written in pieces to a new redis backend comes back whole from its reader, and its
-- length is that of the body, if Close has reported no error.
pub redis_round_trip :
    {C : Type 0} (client : RedisClient C)
    → IsStore client
    → (c : C) (now expiration : ℤ) (key : Str) (ps : List Str)
    → let r = write_all ps (new_redis_backend key expiration) in
      (close client c now r).1 ≡ none
      → (get_reader client (close client c now r).0 r ≡ some (concat ps))
        × (backend_length r ≡ length (concat ps))
unfolding close get_reader new_redis_backend backend_length
redis_round_trip client lawful c now expiration key ps fine =
    let r = write_all ps (new_redis_backend key expiration) in
    let (same, k) = write_all-content ps (new_redis_backend key expiration) in
    (lawful.get-set c r.key r.content _ fine ∙ ap some same, ap length same)

pub write_all-key : (ps : List Str) (r : RedisBackend) → (write_all ps r).key ≡ r.key
write_all-key ps r = (write_all-content ps r).1
