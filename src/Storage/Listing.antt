-- ===== src/Storage/Listing.antt =====
-- List of extends/storage/consul.go.
use cdp_cache.Base.{ℕ, ◌≡◌, ◌≢◌, ◌==◌, refl, ap, ◌∙◌, false, List, [], ◌∷◌, ◌++◌, arith, inl, map}
use cdp_cache.Base.Text.{Str, codes, str_eq, str_eq_refl, has_prefix, trim_prefix, split_byte}
use cdp_cache.Base.Split.{Lacks, split_byte-at}
use cdp_cache.Storage.{
  StorageConfig, KeyValue, listed, list, list_of, first_names, join_all, generate_key, add_name,
}
use cdp_cache.Storage.Keys.{ArePlain, path_join-plain}

-- Two texts that begin with different bytes.
abbrev pub BeginApart : Str → Str → Type 0
BeginApart [] t = Unit
BeginApart (c ∷ s) [] = Unit
BeginApart (c ∷ s) (d ∷ t) = c ≢ d

-- A key below the prefix.
abbrev pub below : Str → Str → Str
below prefix rest = prefix ++ 47 ∷ rest

different : (c d : ℕ) → c ≢ d → (c == d) ≡ false
different c d n = ground (arith, n)

not_below :
    (prefix dir rest : Str)
    → ArePlain prefix
    → ArePlain dir
    → BeginApart prefix dir
    → trim_prefix (below prefix rest) (dir ++ codes "/") ≡ below prefix rest
unfolding trim_prefix has_prefix split_byte str_eq
not_below [] dir rest (h, _) b n = absurd (ground (arith, h))
not_below (c ∷ s) [] rest a (h, _) n = absurd (ground (arith, h))
not_below (c ∷ s) (d ∷ t) rest a b n = rw (different c d n) refl

module _ (prefix dir : Str) (one_name : Lacks 47 prefix) (p : ArePlain prefix) (d : ArePlain dir)
    (n : BeginApart prefix dir) where
  first_name :
      (rest : Str)
      → (split_byte (trim_prefix (below prefix rest) (dir ++ codes "/")) 47).first ≡ prefix
  first_name rest =
      ap (λ k. (split_byte k 47).first) (not_below prefix dir rest p d n)
      ∙ ap (λ q. q.first) (split_byte-at prefix rest 47 one_name)

  only_the_prefix :
      (r : Str) (rests : List Str) → first_names dir (map (below prefix) (r ∷ rests)) ≡ prefix ∷ []
  unfolding first_names
  only_the_prefix r [] = ap (λ s. s ∷ []) (first_name r)
  only_the_prefix r (s ∷ rests) =
      ap (add_name (split_byte (trim_prefix (below prefix r) (dir ++ codes "/")) 47).first)
        (only_the_prefix s rests)
      ∙ ap (λ f. add_name f (prefix ∷ [])) (first_name r)
      ∙ rw (str_eq_refl prefix) refl

-- If the store's prefix is one name, and the directory does not begin with the prefix's first byte,
-- then the list that is not recursive is the same for all keys in the directory: it has one name, the
-- store's own prefix, and none of the keys' names.
pub list_forgets_names :
    {C : Type 0} (kv : KeyValue C) (config : StorageConfig) (c : C) (dir r : Str) (rests : List Str)
    → Lacks 47 config.key_prefix
    → ArePlain config.key_prefix
    → ArePlain dir
    → BeginApart config.key_prefix dir
    → kv.keys c (generate_key config dir) ≡ inl (map (below config.key_prefix) (r ∷ rests))
    → list kv config c dir false ≡ listed (below dir config.key_prefix ∷ [])
unfolding list
list_forgets_names kv config c dir r rests l p d n e =
    ap (list_of dir false) e
    ∙ ap (λ ns. listed (join_all dir ns)) (only_the_prefix config.key_prefix dir l p d n r rests)
    ∙ ap (λ s. listed (s ∷ [])) (path_join-plain dir config.key_prefix d p)
