-- ===== src/Key.antt =====
-- getKey and bodyHash of cache.go. The replacer of Caddy is a parameter: how it cuts a template into
-- pieces, and the values that it has.
pub mod Pure
pub mod Tests
use mathlib.Core.Option
use cdp_cache.Base.{
  ◌+◌, ◌/◌, ◌%◌, ℕ, Bool, true, false, not, ◌&&◌, Option, none, some, List, [], ◌∷◌, ◌++◌, ltb,
  if◌then◌else◌,
}
use cdp_cache.Base.Text.{Str, codes, str_eq}

-- A piece of a template: text, or the name of a placeholder.
pub data Piece : Type 0 where
  text : Str → Piece
  placeholder : Str → Piece

-- caddy.Replacer: `value` is what Get gives, `put` is Set.
pub record Replacer (R : Type 0) : Type 0 where
  pub pieces : Str → List Piece
  pub value : R → Str → Option Str
  pub put : R → Str → Str → R

-- r.Body: the bytes that are left, and the error that reading meets after them.
pub record Body : Type 0 where
  pub rest : Str
  pub error : Option Str

-- The request as far as getKey looks at it, with its replacer, and whether Map has added the provider
-- of the hash to that.
pub record Asked (R : Type 0) : Type 0 where
  pub replacer : R
  pub provides_hash : Bool
  pub content_length : Str
  pub body : Body

-- Lower case, as "%x" has it.
abbrev hex_lower : ℕ → ℕ
hex_lower d = if ltb d 10 then d + b'0' else d + 87

unfoldable pub hex : Str → Str
hex [] = []
hex (c ∷ s) = hex_lower (c / 16) ∷ hex_lower (c % 16) ∷ hex s

module _ (sha1 : Str → Str) where
  -- bodyHash: the hash, and the body that is left: one with the same bytes, unless the reading failed.
  unfoldable pub body_hash : Body → Str × Body
  unfolding hex
  body_hash b = elim b.error [
    | none ↦ (hex (sha1 b.rest), record { rest = b.rest; error = none })
    | some e ↦ ([], record { rest = []; error = some e })
  ]

abbrev pub content_length_name : Str
content_length_name = codes "http.request.contentlength"

abbrev pub body_hash_name : Str
body_hash_name = codes "http.request.bodyhash"

module _ {R : Type 0} (caddy : Replacer R) (sha1 : Str → Str) where
  -- By what Get gives for the length of the content.
  abbrev pub prepared : Asked R → Option Str → Asked R
  prepared q (some v) = q
  prepared q none = record q {
    replacer = caddy.put q.replacer content_length_name q.content_length;
    provides_hash = true;
  }

  -- The test and the two calls at the start of getKey.
  unfoldable pub prepare : Asked R → Asked R
  prepare q = prepared q (caddy.value q.replacer content_length_name)

  abbrev pub raw : Str → Str
  raw name = codes "{" ++ name ++ codes "}"

  -- A placeholder that the replacer does not know by itself.
  unfoldable pub mapped : Bool → Str → Asked R → Str × Asked R
  mapped true name q = let (hash, left) = body_hash sha1 q.body in (hash, record q { body = left })
  mapped false name q = (raw name, q)

  abbrev pub valued : Option Str → Str → Asked R → Str × Asked R
  valued (some v) name q = (v, q)
  valued none name q = mapped (q.provides_hash && str_eq name body_hash_name) name q

  -- ReplaceKnown, from the left.
  unfoldable pub replace_known : List Piece → Asked R → Str × Asked R
  unfolding mapped
  replace_known [] q = ([], q)
  replace_known (text s ∷ ps) q = let (k, t) = replace_known ps q in (s ++ k, t)
  replace_known (placeholder name ∷ ps) q =
      let (v, left) = valued (caddy.value q.replacer name) name q in
      let (k, t) = replace_known ps left in (v ++ k, t)

  -- getKey
  unfoldable pub get_key : Str → Asked R → Str × Asked R
  unfolding prepare replace_known
  get_key template q = replace_known (caddy.pieces template) (prepare q)
