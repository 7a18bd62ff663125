-- ===== src/Distributed.antt =====
-- ConsulService of extends/distributed/register.go, and handleDeleteKey of handler.go.
-- Parameters: the consul agent and its catalog, with the error that each call may return, the local
-- address of helper.IPAddr and the UUIDs. A watch is started and never stopped; what its callback
-- does is handle_checks or handle_delete_key, and handle_config_changed is a reload of Caddy. A
-- callback is given data of the type that its watch has.
pub mod Ids
pub mod Peers
pub mod Deletes
pub mod Setup
pub mod Reloads
pub mod Tests
use mathlib.Core.Option
use cdp_cache.Base.{
  ◌⊎◌, inl, inr, ◌⊎◌, inl, inr, ℕ, suc, ◌+◌, Bool, true, false, ◌&&◌, ◌||◌, not, Option, none, some,
  List, [], ◌∷◌, ◌++◌, get_elem?, if◌then◌else◌,
}
use cdp_cache.Base.Text.{Str, codes, str_eq, has_prefix, trim_left, split_byte, pieces_list}
use cdp_cache.Status.{Clock}
use cdp_cache.Store.{HttpCache}
use cdp_cache.Store.Cleaning.{Outside, del}

-- genServiceID
unfoldable pub gen_service_id : Str → Str → Str → Str
gen_service_id name ip uid = name ++ (codes ":" ++ (ip ++ (codes ":" ++ uid)))

-- getIPFromServiceID; `none` is an index out of range.
unfoldable pub get_ip_from_service_id : Str → Option Str
get_ip_from_service_id id = get_elem? (pieces_list (split_byte id 58)) 1

abbrev pub http_address : Str → Str
http_address ip = codes "http://" ++ ip

-- The parts of an api.HealthCheck that handleChecks reads.
pub record HealthCheck : Type 0 where
  pub status : Str
  pub service_id : Str

abbrev pub is_passing : HealthCheck → Bool
is_passing check = str_eq check.status (codes "passing")

abbrev pub add_peer : Option Str → Option (List Str) → Option (List Str)
add_peer none rest = none
add_peer (some ip) rest = Option.map (λ peers. http_address ip ∷ peers) rest

-- handleChecks: the peers that the pool is set to; `none` is a panic.
unfoldable pub handle_checks : List HealthCheck → Option (List Str)
handle_checks [] = some []
handle_checks (check ∷ checks) =
    let rest = handle_checks checks in
    if is_passing check then add_peer (get_ip_from_service_id check.service_id) rest else rest

-- The service of an api.ServiceEntry.
pub record Service : Type 0 where
  pub service : Str
  pub address : Str

-- Whether a map from addresses holds one.
abbrev pub contains : Str → List Str → Bool
contains s [] = false
contains s (t ∷ ts) = str_eq s t || contains s ts

-- The loop of GetPeers, with the addresses that peerMap holds, and GetPeers.
unfoldable pub peers_loop : Str → List Str → List Service → List Str
peers_loop name seen [] = []
peers_loop name seen (entry ∷ entries) =
    let address = http_address entry.address in
    let past = peers_loop name seen entries in
    let added = peers_loop name (address ∷ seen) entries in
    if not (str_eq entry.service name)
    then past
    else if contains address seen
    then past
    else address ∷ added

unfoldable pub get_peers : Str → List Service → List Str
unfolding peers_loop
get_peers name entries = peers_loop name [] entries

abbrev pub keyprefix : Str
keyprefix = codes "del_cache_key"

-- NewDistributedLock: the key of the lock.
abbrev pub lock_key : Str → Str
lock_key key = keyprefix ++ codes "/" ++ key

-- The parts of api.LockOptions that NewDistributedLock varies.
pub record LockOptions : Type 0 where
  pub key : Str
  pub value : Str
  pub session : Str

-- NewDistributedLock: the options of the lock that it makes. `create` is the session or the error of
-- its creation, `ip` the local address, and `lock_opts` the error of LockOpts.
abbrev with_lock_error : LockOptions → Option Str → LockOptions ⊎ Str
with_lock_error options none = inl options
with_lock_error options (some e) = inr e

abbrev with_session : (LockOptions → Option Str) → Str → Str → Str ⊎ Str → LockOptions ⊎ Str
with_session lock_opts ip key (inr e) = inr e
with_session lock_opts ip key (inl session) =
    let options : LockOptions = record { key = lock_key key; value = ip; session = session } in
    with_lock_error options (lock_opts options)

unfoldable pub new_distributed_lock :
    Str ⊎ Str → Str → (LockOptions → Option Str) → Str → LockOptions ⊎ Str
new_distributed_lock create ip lock_opts key = with_session lock_opts ip key create

-- The parts of an api.KVPair that handleDeleteKey reads.
pub record KvPair : Type 0 where
  pub key : Str
  pub value : Str
  pub session : Str

-- The key to delete.
unfoldable pub original_key : Str → Str
original_key key = if has_prefix key keyprefix then trim_left key (keyprefix ++ codes "/") else key

-- Whether a node acts on a pair.
abbrev pub from_others : Str → KvPair → Bool
from_others my_ip kv = not (str_eq kv.session []) && not (str_eq kv.value my_ip)

-- handleDeleteKey, which ignores what Del returns; `none` is a panic.
unfoldable pub handle_delete_key :
    Outside → (Str → Clock) → Str → List KvPair → HttpCache → Option HttpCache
unfolding original_key
handle_delete_key o clock my_ip [] h = some h
handle_delete_key o clock my_ip (kv ∷ kvs) h =
    let next = λ (g : HttpCache). handle_delete_key o clock my_ip kvs g in
    if from_others my_ip kv
    then elim (del o (original_key kv.key) (clock kv.key) h) [ none ↦ none | some (g, _) ↦ next g ]
    else next h

-- The callbacks, and a WatchHandler with the parameters of its watch.
pub data Callback : Type 0 where
  delete_key : Callback
  checks : Callback
  config_changed : Callback

pub record WatchHandler : Type 0 where
  pub params : List (Str × Str)
  pub callback : Callback

-- GetParams, GetKeyPrefixParams, GetKeysParams and GetChecksParams
abbrev pub get_params : Str → List (Str × Str)
get_params kind = (codes "type", kind) ∷ []

abbrev pub get_key_prefix_params : Str → List (Str × Str)
get_key_prefix_params prefix = (codes "prefix", prefix) ∷ get_params (codes "keyprefix")

abbrev pub get_keys_params : Str → List (Str × Str)
get_keys_params key = (codes "key", key) ∷ get_params (codes "key")

abbrev pub get_checks_params : Str → List (Str × Str)
get_checks_params name = (codes "service", name) ∷ get_params (codes "checks")

-- The package variable `handlers`, and the watches that run.
pub record Watches : Type 0 where
  pub handlers : List WatchHandler
  pub running : List WatchHandler

-- RegisterWatchHandler
unfoldable pub register_watch_handler : WatchHandler → Watches → Watches
register_watch_handler h w = record w { handlers = w.handlers ++ h ∷ [] }

abbrev pub watching : Option Str → WatchHandler → Watches → Watches × Option Str
watching none h w = (record w { running = w.running ++ h ∷ [] }, none)
watching (some e) h w = (w, some e)

-- RegisterWatch; `parse` is watch.Parse. The plan runs from then on in a goroutine of its own.
unfoldable pub register_watch :
    (List (Str × Str) → Option Str) → WatchHandler → Watches → Watches × Option Str
register_watch parse h w = watching (parse h.params) h w

abbrev pub start_or_stop : Option Str → Watches → Watches × Option Str → Watches × Option Str
start_or_stop none w rest = rest
start_or_stop (some e) w rest = (w, some e)

-- The loop over the handlers of RegisterWatches.
unfoldable pub start_watches :
    (List (Str × Str) → Option Str) → List WatchHandler → Watches → Watches × Option Str
unfolding register_watch
start_watches parse [] w = (w, none)
start_watches parse (h ∷ hs) w =
    let (v, e) = register_watch parse h w in
    let rest = start_watches parse hs v in start_or_stop e v rest

-- RegisterWatches
unfoldable pub register_watches :
    (List (Str × Str) → Option Str) → Str → Watches → Watches × Option Str
unfolding start_watches
register_watches parse name w =
    let own =
      record { params = get_checks_params name; callback = checks }
      ∷ record { params = get_keys_params (codes "caddy_config"); callback = config_changed }
      ∷ [] in
    let all = w.handlers ++ own in start_watches parse all (record w { handlers = all })

-- Cleanup: the services that are deregistered, up to the first error.
unfoldable pub cleanup : (Str → Option Str) → List Str → List Str × Option Str
cleanup deregister [] = ([], none)
cleanup deregister (id ∷ ids) =
    let (done, e) = cleanup deregister ids in
    elim (deregister id) [ some err ↦ ([], some err) | none ↦ (id ∷ done, e) ]
