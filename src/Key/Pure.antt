-- ===== src/Key/Pure.antt =====
-- What getKey of cache.go does to the body of the request.
use mathlib.Core.Option
use cdp_cache.Base.{
  ◌≡◌, refl, ap, ◌∙◌, inl, inr, Bool, true, false, ◌&&◌, Option, none, some, List, [], ◌∷◌, ◌++◌,
  Bool-cases,
}
use cdp_cache.Base.Text.{Str, str_eq}
use cdp_cache.Key.{
  Piece, text, placeholder, Replacer, Body, Asked, hex, body_hash, content_length_name,
  body_hash_name, prepare, prepared, raw, mapped, valued, replace_known, get_key,
}

-- A name that is set is known.
pub record IsReplacer {R : Type 0} (caddy : Replacer R) : Type 0 where
  pub value-put : (r : R) (name v : Str) → caddy.value (caddy.put r name v) name ≡ some v

module _ {R : Type 0} (caddy : Replacer R) (sha1 : Str → Str) where
  -- The value of a placeholder, with no reading: the replacer's, or the hash of the whole body, or
  -- the placeholder as it stands.
  abbrev pub chosen : Bool → Str → Str → Str
  chosen true name hash = hash
  chosen false name hash = raw caddy sha1 name

  abbrev pub value_of : Asked R → Str → Str
  value_of q name =
      Option.get_or (caddy.value q.replacer name)
        (chosen (q.provides_hash && str_eq name body_hash_name) name (hex (sha1 q.body.rest)))

  -- The template with all its placeholders replaced.
  unfoldable pub substituted : Asked R → List Piece → Str
  substituted q [] = []
  substituted q (text s ∷ ps) = s ++ substituted q ps
  substituted q (placeholder name ∷ ps) = value_of q name ++ substituted q ps

  valued_lem :
      (v : Option Str) (name : Str) (q : Asked R)
      → q.body.error ≡ none
      → valued caddy sha1 v name q ≡ (
        Option.get_or v
            (chosen (q.provides_hash && str_eq name body_hash_name) name (hex (sha1 q.body.rest))),
        q,
      )
  unfolding mapped body_hash
  valued_lem (some v) name q fine = refl
  valued_lem none name q fine = elim (Bool-cases (q.provides_hash && str_eq name body_hash_name)) [
    | inl hash ↦ rw (hash, fine) refl
    | inr other ↦ rw other refl
  ]

  replace_known_lem :
      (ps : List Piece) (q : Asked R)
      → q.body.error ≡ none
      → replace_known caddy sha1 ps q ≡ (substituted q ps, q)
  unfolding replace_known substituted
  replace_known_lem [] q fine = refl
  replace_known_lem (text s ∷ ps) q fine = rw (replace_known_lem ps q fine) refl
  replace_known_lem (placeholder name ∷ ps) q fine =
      rw (valued_lem (caddy.value q.replacer name) name q fine, replace_known_lem ps q fine) refl

  prepared-body : (q : Asked R) (v : Option Str) → (prepared caddy sha1 q v).body ≡ q.body
  prepared-body q (some v) = refl
  prepared-body q none = refl

  prepare-body : (q : Asked R) → (prepare caddy sha1 q).body ≡ q.body
  unfolding prepare
  prepare-body q = prepared-body q (caddy.value q.replacer content_length_name)

  prepare_twice :
      IsReplacer caddy
      → (q : Asked R) → prepare caddy sha1 (prepare caddy sha1 q) ≡ prepare caddy sha1 q
  unfolding prepare
  prepare_twice lawful q = settled (caddy.value q.replacer content_length_name) refl
    where
      settled :
          (v : Option Str)
          → caddy.value q.replacer content_length_name ≡ v
          → prepare caddy sha1 (prepared caddy sha1 q v) ≡ prepared caddy sha1 q v
      settled (some v) k = ap (prepared caddy sha1 q) k
      settled none k =
          ap (prepared caddy sha1 (prepared caddy sha1 q none))
            (lawful.value-put q.replacer content_length_name q.content_length)

  -- If the body can be read to its end, then getKey leaves the request a body with the same bytes,
  -- although it reads the body for each placeholder of the hash; its key is the template with every
  -- placeholder replaced, the hash being that of the whole body wherever it occurs; and calling
  -- getKey again on the request gives the same key.
  pub get_key_keeps_body :
      IsReplacer caddy
      → (template : Str) (q : Asked R) → q.body.error ≡ none
      → ((get_key caddy sha1 template q).1.body ≡ q.body)
        × ((get_key caddy sha1 template q).0
            ≡ substituted (prepare caddy sha1 q) (caddy.pieces template))
        × (get_key caddy sha1 template (get_key caddy sha1 template q).1
            ≡ get_key caddy sha1 template q)
  unfolding get_key
  get_key_keeps_body lawful template q fine =
      let once =
        replace_known_lem (caddy.pieces template) (prepare caddy sha1 q)
          (ap (λ (b : Body). b.error) (prepare-body q) ∙ fine) in
      let again : prepare caddy sha1
            (replace_known caddy sha1 (caddy.pieces template) (prepare caddy sha1 q)).1
          ≡ prepare caddy sha1 q =
        rw once (prepare_twice lawful q) in
      (
        rw once (prepare-body q),
        rw once refl,
        ap (replace_known caddy sha1 (caddy.pieces template)) again,
      )
