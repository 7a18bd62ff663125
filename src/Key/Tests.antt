-- ===== src/Key/Tests.antt =====
-- getKey at concrete requests.
use cdp_cache.Base.{◌≡◌, refl, Bool, Option, none, some, [], ◌∷◌, if◌then◌else◌}
use cdp_cache.Base.Text.{Str, codes, str_eq, str_eq_refl}
use cdp_cache.Key.{
  text, placeholder, Replacer, Asked, hex, body_hash, prepare, mapped, replace_known, get_key,
  body_hash_name,
}
use cdp_cache.Key.Pure.{IsReplacer, substituted, get_key_keeps_body}

abbrev Map : Type 0
Map = Str → Option Str

-- Every template is "a", then the hash twice.
abbrev fixed : Replacer Map
fixed = record {
  pieces = λ _. text (codes "a") ∷ placeholder body_hash_name ∷ placeholder body_hash_name ∷ [];
  value = λ r name. r name;
  put = λ r name v j. if str_eq name j then some v else r j;
}

fixed-IsReplacer : IsReplacer fixed
fixed-IsReplacer = record { value-put = λ r name v. rw (str_eq_refl name) refl }

abbrev posted : Option Str → Asked Map
posted error = record {
  replacer = λ _. none;
  provides_hash = Bool.false;
  content_length = codes "2";
  body = record { rest = codes "xy"; error = error };
}

-- A hash that is its argument.
abbrev same : Str → Str
same s = s

keys : Unit {0}
unfolding get_key prepare replace_known mapped body_hash hex str_eq
keys = tt

get_key_test : (get_key fixed same [] (posted none)).0 ≡ codes "a78797879"
unfolding keys
get_key_test = refl

-- A body that breaks off is lost, and the key has no hash.
broken_body_test :
    ((get_key fixed same [] (posted (some (codes "EOF")))).0 ≡ codes "a")
    × ((get_key fixed same [] (posted (some (codes "EOF")))).1.body
        ≡ record { rest = []; error = some (codes "EOF") })
unfolding keys
broken_body_test = (refl, refl)

get_key_keeps_body_example :
    ((get_key fixed same [] (posted none)).1.body ≡ (posted none).body)
    × ((get_key fixed same [] (posted none)).0
        ≡ substituted fixed same (prepare fixed same (posted none)) (fixed.pieces []))
    × (get_key fixed same [] (get_key fixed same [] (posted none)).1
        ≡ get_key fixed same [] (posted none))
get_key_keeps_body_example = get_key_keeps_body fixed same fixed-IsReplacer [] (posted none) refl
