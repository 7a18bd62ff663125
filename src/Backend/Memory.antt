-- ===== src/Backend/Memory.antt =====
-- InMemoryBackend of backends/memory.go over the group of groupcache.
-- The group is a parameter: `get` is Group.Get with what the getter of this program gives for the
-- context of the call, `remove` is Group.Remove, and `holds` is what the group has under a key,
-- which its documentation promises to a later Get.
pub mod Reads
pub mod Init
pub mod Variants
use cdp_cache.Base.{
  ℕ, ◌≡◌, Bool, true, false, Option, none, some, List, [], ◌∷◌, ◌++◌, length, inl, inr, ◌⊎◌,
  if◌then◌else◌,
}
use cdp_cache.Base.Int.{ℤ}
use cdp_cache.Base.Text.{Str}

-- The bytes and their time to live, or the error: NoPreCollectError or another one.
pub data Loaded : Type 0 where
  loaded : Str → ℤ → Loaded
  no_pre_collect : Loaded
  load_error : Str → Loaded

pub data Fetched : Type 0 where
  bytes : Str → Fetched
  missing : Fetched
  fetch_error : Str → Fetched

pub record GroupCache (G : Type 0) : Type 0 where
  pub get : G → Str → Loaded → G × Fetched
  pub remove : G → Str → G × Option Str
  pub holds : G → Str → Option Str

-- What the documentation of groupcache says of Get: a value that is there is returned and stays; for
-- one that is not, what the getter gives is returned, and is then there unless it is evicted.
pub record IsGroup {G : Type 0} (group : GroupCache G) : Type 0 where
  pub get-held :
      (g : G) (key : Str) (l : Loaded) (b : Str)
      → group.holds g key ≡ some b
      → ((group.get g key l).1 ≡ bytes b) × (group.holds (group.get g key l).0 key ≡ some b)
  pub get-loaded :
      (g : G) (key : Str) (b : Str) (ttl : ℤ)
      → group.holds g key ≡ none
      → ((group.get g key (loaded b ttl)).1 ≡ bytes b)
        × ((group.holds (group.get g key (loaded b ttl)).0 key ≡ some b)
            ⊎ (group.holds (group.get g key (loaded b ttl)).0 key ≡ none))
  pub get-missing :
      (g : G) (key : Str) → group.holds g key ≡ none → (group.get g key no_pre_collect).1 ≡ missing

-- The values that Close puts into the context are fields of their own.
pub record InMemoryBackend : Type 0 where
  pub key : Str
  pub expiration : ℤ
  pub content : Str
  pub is_content_written : Bool
  pub cached_bytes : Str
  pub getter_value : Option Str
  pub getter_ttl : Option ℤ

-- getter, by the values of the context
unfoldable pub getter : Option Str → Option ℤ → Loaded
getter none ttl = no_pre_collect
getter (some p) none = load_error []
getter (some p) (some ttl) = loaded p ttl

-- NewInMemoryBackend
unfoldable pub new_in_memory_backend : Str → ℤ → InMemoryBackend
new_in_memory_backend key expiration = record {
  key = key;
  expiration = expiration;
  content = [];
  is_content_written = false;
  cached_bytes = [];
  getter_value = none;
  getter_ttl = none;
}

-- Write
unfoldable pub write : InMemoryBackend → Str → InMemoryBackend × (ℕ × Option Str)
write i p = (record i { is_content_written = true; content = i.content ++ p }, (length p, none))

-- Length
unfoldable pub backend_length : InMemoryBackend → ℕ
backend_length i = length i.cached_bytes

-- What AllocatingByteSliceSink does with the result of a Get, and the error that Get returns.
abbrev pub sunk : {G : Type 0} → InMemoryBackend → G × Fetched → InMemoryBackend × (G × Fetched)
sunk i (g, bytes b) = (record i { cached_bytes = b }, (g, bytes b))
sunk i (g, missing) = (i, (g, missing))
sunk i (g, fetch_error e) = (i, (g, fetch_error e))

abbrev error_of :
    {G : Type 0} → InMemoryBackend × (G × Fetched) → InMemoryBackend × (G × Option Fetched)
error_of (i, (g, bytes b)) = (i, (g, none))
error_of (i, (g, missing)) = (i, (g, some missing))
error_of (i, (g, fetch_error e)) = (i, (g, some (fetch_error e)))

-- The reader is the bytes that it reads.
abbrev pub read_of :
    {G : Type 0} → InMemoryBackend × (G × Fetched) → InMemoryBackend × (G × Fetched)
read_of (i, (g, bytes b)) = (i, (g, bytes i.cached_bytes))
read_of (i, (g, missing)) = (i, (g, missing))
read_of (i, (g, fetch_error e)) = (i, (g, fetch_error e))

module _ {G : Type 0} (group : GroupCache G) where
  abbrev get_group : G → InMemoryBackend → InMemoryBackend × (G × Fetched)
  get_group g i = sunk i (group.get g i.key (getter i.getter_value i.getter_ttl))

  -- Clean
  unfoldable pub clean : G → InMemoryBackend → G × Option Str
  clean g i = group.remove g i.key

  -- Close: the error of the Get, if there is one.
  unfoldable pub close : G → InMemoryBackend → InMemoryBackend × (G × Option Fetched)
  unfolding getter
  close g i =
      if i.is_content_written
      then error_of
          (get_group g (record i { getter_value = some i.content; getter_ttl = some i.expiration }))
      else (i, (g, none))

  -- The reader, by the bytes that are cached.
  unfoldable pub reader_with : Str → G → InMemoryBackend → InMemoryBackend × (G × Fetched)
  unfolding getter
  reader_with [] g i = read_of (get_group g i)
  reader_with (c ∷ s) g i = (i, (g, bytes i.cached_bytes))

  -- GetReader
  unfoldable pub get_reader : G → InMemoryBackend → InMemoryBackend × (G × Fetched)
  unfolding reader_with
  get_reader g i = reader_with i.cached_bytes g i
