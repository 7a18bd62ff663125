-- ===== src/Entry/Tests.antt =====
-- Runs of matchVary and of the storage key, and their theorems at concrete entries.
use cdp_cache.Base.{◌≡◌, refl, true, false, String, [], ◌∷◌}
use cdp_cache.Base.Int.{pos}
use cdp_cache.Base.Text.{codes, str_eq, split_byte, trim_space}
use cdp_cache.Base.Assoc.{lookup}
use cdp_cache.Header
use cdp_cache.Header.{Header, canonical_key}
use cdp_cache.Entry.{Entry, match_vary, path_escape, key_with_respect_vary}

entry : Unit {0}
unfolding str_eq split_byte trim_space lookup canonical_key Header.get match_vary
    key_with_respect_vary path_escape
entry = tt

abbrev vary : String → Header
vary names = (codes "Vary", codes names ∷ []) ∷ []

abbrev stored : String → String → Header → Entry
stored key names h = record {
  ident = 0;
  is_public = true;
  expiration = pos 9;
  key = codes key;
  request = record { method = codes "GET"; path = codes "/"; header = h };
  code = 200;
  header_map = vary names;
  snap_header = vary names;
}

abbrev accepts : String → String → Header
accepts encoding lang =
    (codes "Accept-Encoding", codes encoding ∷ []) ∷ (codes "Accept-Language", codes lang ∷ []) ∷ []

abbrev both : String
both = "Accept-Encoding, Accept-Language"

english : Entry
english = stored "hello" both (accepts "gzip" "en")

german : Entry
german = stored "hello" both (accepts "gzip" "de")

-- matchVary tells the two variants apart, and the storage key does not.
variants_test :
    (match_vary german.request english ≡ false)
    × (key_with_respect_vary english ≡ codes "hellogzip")
    × (key_with_respect_vary german ≡ codes "hellogzip")
unfolding entry english german
variants_test = (refl, refl, refl)

escape_test : path_escape (codes "gzip, deflate, br") ≡ codes "gzip%2C%20deflate%2C%20br"
unfolding entry
escape_test = refl
