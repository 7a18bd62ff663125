-- ===== src/Backend/Redis/Setting.antt =====
-- redis_connection_setting: the arguments in the Caddyfile (caddyfile.go) are joined by spaces, and
-- ParseRedisConfig of backends/redis.go splits them again.
use cdp_cache.Base.{◌≡◌, refl, append_assoc, ◌∙◌, ap, Option, some, List, [], ◌∷◌, arith, All}
use cdp_cache.Base.Int.{ℤ, pos}
use cdp_cache.Base.Text.{Str, codes, str_eq, split_byte, join}
use cdp_cache.Base.Split.{Lacks, split_byte-Lacks, split_byte-at}
use cdp_cache.Config.{Config}
use cdp_cache.Config.Caddyfile.{Tools, set_field}
use cdp_cache.Backend.Redis.{Options, ◌>>=◌, parse_redis_config}

-- Splitting at spaces undoes joining with spaces.
split_byte-join :
    (a : Str) (args : List Str)
    → All (Lacks b' ') (a ∷ args)
    → split_byte (join (a ∷ args) (codes " ")) b' ' ≡ record { first = a; others = args }
unfolding join
split_byte-join a [] (h, _) = split_byte-Lacks a b' ' h
split_byte-join a (b ∷ args) (h, hs) =
    ap (λ s. split_byte s b' ') (append_assoc a (codes " ") (join (b ∷ args) (codes " ")))
    ∙ split_byte-at a (join (b ∷ args) (codes " ")) b' ' h
    ∙ rw (split_byte-join b args hs) refl

-- The options that the arguments name: address, index and password.
abbrev pub options_of : (Str → Option ℤ) → List Str → Option Options
options_of atoi [] = some (record { addr = []; db = pos 0; password = [] })
options_of atoi (addr ∷ []) = some (record { addr = addr; db = pos 0; password = [] })
options_of atoi (addr ∷ db ∷ []) =
    atoi db >>= λ n. some (record { addr = addr; db = n; password = [] })
options_of atoi (addr ∷ db ∷ password ∷ args) =
    atoi db >>= λ n. some (record { addr = addr; db = n; password = password })

parse-join :
    (atoi : Str → Option ℤ) (args : List Str)
    → All (Lacks b' ') args
    → parse_redis_config atoi (join args (codes " ")) ≡ options_of atoi args
unfolding parse_redis_config
parse-join atoi [] h = unfold join split_byte in refl
parse-join atoi (a ∷ []) h = rw (split_byte-join a [] h) refl
parse-join atoi (a ∷ db ∷ []) h = rw (split_byte-join a (db ∷ []) h) refl
parse-join atoi (a ∷ db ∷ password ∷ args) h = rw (split_byte-join a (db ∷ password ∷ args) h) refl

accepted :
    (tools : Tools) (args : List Str) (c d : Config)
    → set_field tools (codes "redis_connection_setting") args c ≡ some d
    → d.redis_connection_setting ≡ join args (codes " ")
unfolding set_field str_eq
accepted tools [] c d p = ground (arith, p)
accepted tools (x ∷ []) c d p = ground (arith, p)
accepted tools (x ∷ y ∷ []) c d p = ground (arith, p)
accepted tools (x ∷ y ∷ z ∷ []) c d p = ground (arith, p)
accepted tools (x ∷ y ∷ z ∷ w ∷ args) c d p = absurd (ground (arith, p))

-- If the parameter redis_connection_setting is accepted and no argument has a space, then the
-- client's options are exactly the arguments: the address, the index, 0 if there is none, and the
-- password, empty if there is none; an index that is no number is an error.
pub redis_setting_round_trip :
    (tools : Tools) (args : List Str) (c d : Config)
    → All (Lacks b' ') args
    → set_field tools (codes "redis_connection_setting") args c ≡ some d
    → parse_redis_config tools.atoi d.redis_connection_setting ≡ options_of tools.atoi args
redis_setting_round_trip tools args c d h p =
    ap (parse_redis_config tools.atoi) (accepted tools args c d p) ∙ parse-join tools.atoi args h
