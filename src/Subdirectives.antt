-- ===== src/Subdirectives.antt =====
-- The UnmarshalCaddyfile that the extensions share but for their keys: extends/distributed/caddyfile.go,
-- extends/storage/caddyfile.go and extends/influxlog/Caddyfile.go.
use cdp_cache.Base.{Option, none, some, List, [], ◌∷◌}
use cdp_cache.Base.Text.{Str}
use cdp_cache.Config.Caddyfile.{Segment}

-- What a block gives: a configuration, the error on an unknown key, or the panic of args[0].
pub data Parsed {ℓ} (A : Type ℓ) : Type ℓ where
  parsed : A → Parsed A
  unrecognized : Str → Parsed A
  panics : Parsed A

abbrev pub first_argument {ℓ κ} : {A : Type ℓ} {B : Type κ} → List A → (A → Parsed B) → Parsed B
first_argument [] f = panics
first_argument (a ∷ args) f = f a

-- The loop over the block; `set` is the switch: what the key does with its first argument, if it is a
-- key.
module _ {ℓ} {A : Type ℓ} (set : Str → A → Option (Str → A)) where
  unfoldable pub unmarshal : List Segment → A → Parsed A
  unmarshal [] c = parsed c
  unmarshal ((parameter, args) ∷ ss) c =
      let rest = λ (d : A). unmarshal ss d in
      elim (set parameter c) [
        | none ↦ unrecognized parameter
        | some f ↦ first_argument args (λ a. rest (f a))
      ]
