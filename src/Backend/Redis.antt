-- ===== src/Backend/Redis.antt =====
-- RedisBackend of backends/redis.go over the client of redis.
-- The client is a parameter, with the command that each method calls. strconv.Atoi is a parameter.
pub mod Reads
pub mod Replaced
pub mod Tests
pub mod Setting
use cdp_cache.Base.{ℕ, ◌≡◌, Option, none, some, List, [], ◌∷◌, ◌++◌, length}
use cdp_cache.Base.Int.{ℤ, pos, ◌-ℤ◌}
use cdp_cache.Base.Text.{Str, codes, split_byte}

pub record RedisClient (C : Type 0) : Type 0 where
  pub set : C → Str → Str → ℤ → C × Option Str
  pub del : C → Str → C × Option Str
  -- the error redis.Nil, or another one, is `none`
  pub get : C → Str → Option Str

-- A value that is set without an error is got, until it is changed.
pub record IsStore {C : Type 0} (client : RedisClient C) : Type 0 where
  pub get-set :
      (c : C) (key value : Str) (ttl : ℤ)
      → (client.set c key value ttl).1 ≡ none
      → client.get (client.set c key value ttl).0 key ≡ some value

-- A key that is deleted without an error has no value.
pub record Forgets {C : Type 0} (client : RedisClient C) : Type 0 where
  pub get-del :
      (c : C) (key : Str) → (client.del c key).1 ≡ none → client.get (client.del c key).0 key ≡ none

pub record RedisBackend : Type 0 where
  pub key : Str
  pub content : Str
  pub expiration : ℤ

-- redis.Options, as far as they are set.
pub record Options : Type 0 where
  pub addr : Str
  pub db : ℤ
  pub password : Str

infixl 5 ◌>>=◌
abbrev pub ◌>>=◌ {ℓ κ} : {A : Type ℓ} {B : Type κ} → Option A → (A → Option B) → Option B
none >>= f = none
some a >>= f = f a

-- What stands behind the first piece: args[1] is the index, args[2] the password.
abbrev pub parse_db : (Str → Option ℤ) → List Str → Option ℤ
parse_db atoi [] = some (pos 0)
parse_db atoi (db ∷ args) = atoi db

abbrev pub parse_password : List Str → Str
parse_password [] = []
parse_password (db ∷ []) = []
parse_password (db ∷ password ∷ args) = password

-- ParseRedisConfig
unfoldable pub parse_redis_config : (Str → Option ℤ) → Str → Option Options
parse_redis_config atoi conn_setting = do
  let args = split_byte conn_setting b' '
  db ← parse_db atoi args.others
  some (record { addr = args.first; db = db; password = parse_password args.others })

-- NewRedisBackend
unfoldable pub new_redis_backend : Str → ℤ → RedisBackend
new_redis_backend key expiration = record { key = key; content = []; expiration = expiration }

-- Write
unfoldable pub write : RedisBackend → Str → RedisBackend × (ℕ × Option Str)
write r p = (record r { content = r.content ++ p }, (length p, none))

-- Length
unfoldable pub backend_length : RedisBackend → ℕ
backend_length r = length r.content

module _ {C : Type 0} (client : RedisClient C) where
  -- Close, at the time that time.Now() returns.
  unfoldable pub close : C → ℤ → RedisBackend → C × Option Str
  close c now r = client.set c r.key r.content (r.expiration -ℤ now)

  -- Clean
  unfoldable pub clean : C → RedisBackend → C × Option Str
  clean c r = client.del c r.key

  -- GetReader: the bytes that the reader gives.
  unfoldable pub get_reader : C → RedisBackend → Option Str
  get_reader c r = client.get c r.key

-- InitRedisClient: the package variable `client` is set to a client of the options before the error
-- of the ping is known.
unfoldable pub init_redis_client : (Options → Option Str) → Options → Option Options × Option Str
init_redis_client ping options = (some options, ping options)

-- provisionRedisCache of handler.go: the package variable, and the error.
unfoldable pub provision_redis_cache :
    (Str → Option ℤ) → (Options → Option Str) → Str → Option Options → Option Options × Option Str
unfolding init_redis_client parse_redis_config
provision_redis_cache atoi ping conn_setting client = elim (parse_redis_config atoi conn_setting) [
  | none ↦ (client, some (codes "Atoi"))
  | some options ↦ init_redis_client ping options
]
