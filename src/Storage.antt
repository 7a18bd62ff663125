-- ===== src/Storage.antt =====
-- Storage of extends/storage/consul.go, which keeps Caddy's certificates in consul.
-- Parameters: the key-value store and the locks of consul, with the error that each call may return.
-- path.Join and path.Clean are written out. The text of an error is the one of consul: what
-- fmt.Errorf puts around it is left out.
pub mod Keys
pub mod Certificates
pub mod Listing
pub mod Locks
pub mod Tests
use mathlib.Core.List.{reverse}
use cdp_cache.Base.{
  ℕ, suc, ◌+◌, ◌⊎◌, inl, inr, ◌≡◌, Bool, true, false, ◌||◌, Option, none, some, List, [], ◌∷◌, ◌++◌,
  length, if◌then◌else◌,
}
use cdp_cache.Base.Text.{Str, codes, str_eq, has_prefix, trim_prefix, split_byte, pieces_list, join}
use cdp_cache.Base.Assoc.{lookup, insert, erase}
use cdp_cache.Config.Caddyfile.{Segment}
use cdp_cache.Subdirectives.{Parsed, unmarshal}

pub record StorageConfig : Type 0 where
  pub addr : Str
  pub token : Str
  pub key_prefix : Str

-- getDefaultConfig
abbrev pub default_storage_config : StorageConfig
default_storage_config = record {
  addr = codes "localhost:8500";
  token = [];
  key_prefix = codes "_consul_cert_";
}

-- The switch of UnmarshalCaddyfile.
unfoldable pub set_storage : Str → StorageConfig → Option (Str → StorageConfig)
set_storage parameter c =
    if str_eq parameter (codes "addr")
    then some (λ a. record c { addr = a })
    else if str_eq parameter (codes "token")
    then some (λ a. record c { token = a })
    else if str_eq parameter (codes "key_prefix")
    then some (λ a. record c { key_prefix = a })
    else none

-- UnmarshalCaddyfile
unfoldable pub unmarshal_storage : List Segment → Parsed StorageConfig
unmarshal_storage segments = unmarshal set_storage segments default_storage_config

-- `..` takes away the name before it; at the root there is nothing above.
abbrev pub parent_of : Bool → List Str → List Str
parent_of true [] = []
parent_of false [] = codes ".." ∷ []
parent_of rooted (s ∷ done) = if str_eq s (codes "..") then codes ".." ∷ s ∷ done else done

-- The names that path.Clean keeps; those that are done stand in reverse.
unfoldable pub clean_names : Bool → List Str → List Str → List Str
clean_names rooted done [] = reverse done
clean_names rooted done (s ∷ ss) =
    let skipped = clean_names rooted done ss in
    let up = clean_names rooted (parent_of rooted done) ss in
    let kept = clean_names rooted (s ∷ done) ss in
    if str_eq s [] || str_eq s (codes ".")
    then skipped
    else if str_eq s (codes "..")
    then up
    else kept

abbrev pub or_dot : Str → Str
or_dot [] = codes "."
or_dot (c ∷ s) = c ∷ s

-- path.Clean
unfoldable pub clean : Str → Str
unfolding clean_names
clean s =
    let rooted = has_prefix s (codes "/") in
    let names = join (clean_names rooted [] (pieces_list (split_byte s 47))) (codes "/") in
    if rooted then codes "/" ++ names else or_dot names

-- path.Join of two elements, of which the empty ones are passed over.
unfoldable pub path_join : Str → Str → Str
unfolding clean
path_join [] [] = []
path_join [] (c ∷ t) = clean (c ∷ t)
path_join (c ∷ s) [] = clean (c ∷ s)
path_join (c ∷ s) (d ∷ t) = clean ((c ∷ s) ++ (codes "/" ++ (d ∷ t)))

-- generateKey
unfoldable pub generate_key : StorageConfig → Str → Str
unfolding path_join
generate_key config key = path_join config.key_prefix key

-- api.KV: the error of a call is on the right, and `get` finds the value or nothing.
pub record KeyValue (C : Type 0) : Type 0 where
  pub put : C → Str → Str → C × Option Str
  pub get : C → Str → Option Str ⊎ Str
  pub delete_cas : C → Str → C × (Bool ⊎ Str)
  pub keys : C → Str → List Str ⊎ Str

-- What Store, Load, Delete, Exists and Stat answer.
pub data Answer : Type 0 where
  done : Answer
  value : Str → Answer
  size : ℕ → Answer
  found : Bool → Answer
  not_exist : Answer
  failed : Str → Answer

abbrev pub is_some : {A : Type 0} → Option A → Bool
is_some none = false
is_some (some a) = true

abbrev pub put_answer : Option Str → Answer
put_answer none = done
put_answer (some e) = failed e

abbrev pub value_answer : (Str → Answer) → Option Str ⊎ Str → Answer
value_answer f (inl none) = not_exist
value_answer f (inl (some v)) = f v
value_answer f (inr e) = failed e

abbrev pub exists_answer : Option Str ⊎ Str → Answer
exists_answer (inl v) = found (is_some v)
exists_answer (inr e) = found false

abbrev pub delete_answer : Bool ⊎ Str → Answer
delete_answer (inl true) = done
delete_answer (inl false) = failed (codes "failed to delete data")
delete_answer (inr e) = failed e

module _ {C : Type 0} (kv : KeyValue C) (config : StorageConfig) where
  -- Store
  unfoldable pub store : C → Str → Str → C × Answer
  store c key v = let (c', e) = kv.put c (generate_key config key) v in (c', put_answer e)

  -- Load
  unfoldable pub load : C → Str → Answer
  load c key = value_answer value (kv.get c (generate_key config key))

  abbrev pub delete_found : C → Str → Option Str ⊎ Str → C × Answer
  delete_found c key (inr e) = (c, failed e)
  delete_found c key (inl none) = (c, not_exist)
  delete_found c key (inl (some v)) =
      let (c', r) = kv.delete_cas c (generate_key config key) in (c', delete_answer r)

  -- Delete
  unfoldable pub delete : C → Str → C × Answer
  delete c key = delete_found c key (kv.get c (generate_key config key))

  -- Exists
  unfoldable pub exists : C → Str → Answer
  exists c key = exists_answer (kv.get c (generate_key config key))

  -- Stat: the size of the value.
  unfoldable pub stat : C → Str → Answer
  stat c key = value_answer (λ v. size (length v)) (kv.get c (generate_key config key))

-- The keys of a set, in the order in which they are put into it; Go leaves the order open.
abbrev pub is_in : Str → List Str → Bool
is_in s [] = false
is_in s (t ∷ ts) = str_eq s t || is_in s ts

abbrev pub add_name : Str → List Str → List Str
add_name s names = if is_in s names then names else s ∷ names

-- The first names behind the prefix.
unfoldable pub first_names : Str → List Str → List Str
first_names prefix [] = []
first_names prefix (key ∷ keys) =
    add_name (split_byte (trim_prefix key (prefix ++ codes "/")) 47).first (first_names prefix keys)

abbrev pub join_all : Str → List Str → List Str
join_all prefix [] = []
join_all prefix (s ∷ ss) = path_join prefix s ∷ join_all prefix ss

-- What List answers.
pub data Listed : Type 0 where
  listed : List Str → Listed
  no_keys : Listed
  list_failed : Str → Listed

abbrev pub list_of : Str → Bool → List Str ⊎ Str → Listed
list_of prefix recursive (inr e) = list_failed e
list_of prefix recursive (inl []) = no_keys
list_of prefix true (inl (key ∷ keys)) = listed (key ∷ keys)
list_of prefix false (inl (key ∷ keys)) = listed (join_all prefix (first_names prefix (key ∷ keys)))

-- List
unfoldable pub list : {C : Type 0} → KeyValue C → StorageConfig → C → Str → Bool → Listed
unfolding first_names path_join
list kv config c prefix recursive =
    list_of prefix recursive (kv.keys c (generate_key config prefix))

-- The locks that a Storage holds, and its calls of consul: the key whose lock is awaited or given
-- back. `some` is the error of a call.
pub record HeldLocks : Type 0 where
  pub held : List (Str × Unit {0})
  pub awaited : List Str

abbrev pub lock_result : HeldLocks → Str → Str → Option Str → HeldLocks × Option Str
lock_result s key generated none =
    (record { held = insert key tt s.held; awaited = s.awaited ++ generated ∷ [] }, none)
lock_result s key generated (some e) = (record s { awaited = s.awaited ++ generated ∷ [] }, some e)

-- What Provision makes of a Storage: the configuration, the locks, and the error.
abbrev pub Provisioned : Type 0
Provisioned = StorageConfig × (Option HeldLocks × Option Str)

abbrev config_or_default : Option StorageConfig → StorageConfig
config_or_default none = default_storage_config
config_or_default (some c) = c

abbrev after_client : StorageConfig → Option Str → Option Str → Provisioned
after_client c (some e) ping = (c, (none, some e))
after_client c none (some e) = (c, (none, some e))
after_client c none none = (c, (some (record { held = []; awaited = [] }), none))

-- Provision; `new_client` and `ping` are the errors of api.NewClient and of NodeName.
unfoldable pub provision_storage :
    (Str → Str → Option Str) → Option Str → Option StorageConfig → Provisioned
provision_storage new_client ping config =
    let c = config_or_default config in after_client c (new_client c.addr c.token) ping

-- Lock; `acquire` is LockKey and the Lock of what it returns. A key that is held is left as it is.
abbrev pub lock_found :
    (Str → Option Str)
    → StorageConfig
    → Str
    → HeldLocks
    → Option (Unit {0})
    → HeldLocks × Option Str
lock_found acquire config key s (some u) = (s, none)
lock_found acquire config key s none =
    let generated = generate_key config key in lock_result s key generated (acquire generated)

unfoldable pub lock : (Str → Option Str) → StorageConfig → Str → HeldLocks → HeldLocks × Option Str
lock acquire config key s = lock_found acquire config key s (lookup key s.held)

abbrev pub unlock_result : HeldLocks → Str → Option Str → HeldLocks × Option Str
unlock_result s key none = (record s { held = erase key s.held }, none)
unlock_result s key (some e) = (s, some e)

abbrev pub unlock_found :
    (Str → Option Str)
    → StorageConfig
    → Str
    → HeldLocks
    → Option (Unit {0})
    → HeldLocks × Option Str
unlock_found release config key s none = (s, some (codes "not found"))
unlock_found release config key s (some u) = unlock_result s key (release (generate_key config key))

-- Unlock
unfoldable pub unlock :
    (Str → Option Str) → StorageConfig → Str → HeldLocks → HeldLocks × Option Str
unlock release config key s = unlock_found release config key s (lookup key s.held)
