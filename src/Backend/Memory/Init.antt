-- ===== src/Backend/Memory/Init.antt =====
-- InitGroupCacheRes and ReleaseGroupCacheRes of backends/memory.go.
-- Parameters: the address of the machine, and how listening ends. The channel has room for one
-- value: whether the goroutine that listens fails before `errChan <- nil` decides how the call ends.
use cdp_cache.Base.{◌≡◌, ◌≢◌, refl, Bool, true, false, Option, none, some, ◌++◌}
use cdp_cache.Base.Int.{ℤ}
use cdp_cache.Base.Text.{Str, codes}

-- The package variables: the address of the pool, the size of the group, and whether a server is
-- there.
pub record Resources : Type 0 where
  pub pool : Option Str
  pub groupch : Option ℤ
  pub has_server : Bool

pub data InitEnd : Type 0 where
  initialised : InitEnd
  init_error : Str → InitEnd
  -- `errChan <- nil` finds the channel full, and nobody receives
  init_hangs : InitEnd

abbrev or_else {ℓ} : {A : Type ℓ} → Option A → A → A
or_else none a = a
or_else (some b) a = b

-- `errChan <- nil; return <-errChan`, by the error of the listener and whether it came first.
unfoldable pub wait_listener : Option Str → Bool → InitEnd
wait_listener (some e) true = init_hangs
wait_listener (some e) false = initialised
wait_listener none first = initialised

-- InitGroupCacheRes; the address is `none` if IPAddr fails.
unfoldable pub init_group_cache_res :
    Option Str → ℤ → Option Str → Bool → Resources → Resources × InitEnd
unfolding wait_listener
init_group_cache_res none max_size listen_error listener_first r = (r, init_error (codes "ip"))
init_group_cache_res (some ip) max_size listen_error listener_first r = (
  record {
    pool = some (or_else r.pool (codes "http://" ++ ip));
    groupch = some (or_else r.groupch max_size);
    has_server = true;
  },
  wait_listener listen_error listener_first,
)

-- ReleaseGroupCacheRes, by the error of Shutdown.
unfoldable pub release_group_cache_res : Option Str → Resources → Option Str
release_group_cache_res shutdown_error r = elim r.has_server [
  | true ↦ shutdown_error
  | false ↦ none
]

-- The error of the listener is never reported: the call ends without an error or hangs.
listen_error_unreported :
    (ip : Str) (max_size : ℤ) (error : Option Str) (first : Bool) (r : Resources) (e : Str)
    → (init_group_cache_res (some ip) max_size error first r).1 ≢ init_error e
unfolding init_group_cache_res
listen_error_unreported ip max_size none first r e = λ h. cc
listen_error_unreported ip max_size (some x) true r e = λ h. cc
listen_error_unreported ip max_size (some x) false r e = λ h. cc

-- A second call keeps the group of the first one, whatever size it asks for.
group_size_stays :
    (ip : Str) (max_size : ℤ) (error : Option Str) (first : Bool) (r : Resources) (n : ℤ)
    → r.groupch ≡ some n
    → (init_group_cache_res (some ip) max_size error first r).0.groupch ≡ some n
unfolding init_group_cache_res
group_size_stays ip max_size error first r n h = rw h refl
