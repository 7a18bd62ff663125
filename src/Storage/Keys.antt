-- ===== src/Storage/Keys.antt =====
-- generateKey of extends/storage/consul.go on the keys that certmagic makes: names joined by slashes.
use mathlib.Core.List.{reverse, reverse-cons, append_cancel_left}
use cdp_cache.Base.{
  ℕ, ◌≡◌, refl, sym, ap, ◌∙◌, Bool, true, false, not, ◌&&◌, ◌||◌, ◌==◌, List, [], ◌∷◌, ◌++◌, arith,
  append_assoc, append-nil, All, All-append, Bool-cases, inl, inr, if◌then◌else◌, subst,
}
use cdp_cache.Base.Text.{Str, codes, str_eq, has_prefix, split_byte, pieces_list, join}
use cdp_cache.Storage.{StorageConfig, or_dot, clean_names, clean, path_join, generate_key}

-- Neither empty nor one of the two dots.
abbrev pub is_name : Str → Bool
is_name s = not (str_eq s [] || str_eq s (codes ".")) && not (str_eq s (codes ".."))

abbrev pub IsName : Str → Type 0
IsName s = is_name s ≡ true

abbrev pub names_of : Str → List Str
names_of s = pieces_list (split_byte s 47)

abbrev pub ArePlain : Str → Type 0
ArePlain s = All IsName (names_of s)

same_code : (x : ℕ) → (x == 47) ≡ true → x ≡ 47
same_code x h = ground arith

no_empty_name : {A : Type 0} → IsName [] → A
unfolding str_eq
no_empty_name h = absurd (ground (arith, h))

join-head :
    (x : ℕ) (f : Str) (fs : List Str)
    → join ((x ∷ f) ∷ fs) (codes "/") ≡ x ∷ join (f ∷ fs) (codes "/")
unfolding join
join-head x f [] = refl
join-head x f (g ∷ fs) = refl

join-names_of : (s : Str) → join (names_of s) (codes "/") ≡ s
unfolding join split_byte
join-names_of [] = refl
join-names_of (x ∷ s) = elim (Bool-cases (x == 47)) [
  | inl h ↦ rw h (ap (λ u. 47 ∷ u) (join-names_of s) ∙ ap (λ y. y ∷ s) (sym (same_code x h)))
  | inr h ↦ rw h (
      join-head x (split_byte s 47).first (split_byte s 47).others
      ∙ ap (λ t. x ∷ t) (join-names_of s))
]

on_first : ℕ → List Str → List Str
on_first x [] = []
on_first x (f ∷ fs) = (x ∷ f) ∷ fs

names_of-append : (s t : Str) → names_of (s ++ 47 ∷ t) ≡ names_of s ++ names_of t
unfolding split_byte on_first
names_of-append [] t = refl
names_of-append (x ∷ s) t = elim (Bool-cases (x == 47)) [
  | inl h ↦ rw h (ap (λ ns. [] ∷ ns) (names_of-append s t))
  | inr h ↦ rw h (ap (on_first x) (names_of-append s t))
]

choose_kept :
    {A : Type 0} (skip up : Bool)
    → (not skip && not up) ≡ true
    → (a b c : A) → (if skip then a else if up then b else c) ≡ c
choose_kept true up h a b c = ground arith
choose_kept false true h a b c = ground arith
choose_kept false false h a b c = refl

clean_names-names :
    (rooted : Bool) (before ss : List Str)
    → All IsName ss
    → clean_names rooted before ss ≡ reverse before ++ ss
unfolding clean_names
clean_names-names rooted before [] a = sym (append-nil (reverse before))
clean_names-names rooted before (s ∷ ss) (h, a) =
    choose_kept (str_eq s [] || str_eq s (codes ".")) (str_eq s (codes "..")) h _ _ _
    ∙ clean_names-names rooted (s ∷ before) ss a
    ∙ ap (λ u. u ++ ss) (reverse-cons s before)
    ∙ append_assoc (reverse before) (s ∷ []) ss

has_no_root : (s : Str) → ArePlain s → has_prefix s (codes "/") ≡ false
unfolding has_prefix split_byte
has_no_root [] a = refl
has_no_root (x ∷ s) (h, a) = elim (Bool-cases (x == 47)) [
  | inl e ↦ no_empty_name (rw e at h)
  | inr e ↦ rw e refl
]

is_something : (s : Str) → ArePlain s → or_dot s ≡ s
unfolding split_byte
is_something [] (h, a) = no_empty_name h
is_something (c ∷ s) a = refl

clean-plain : (s : Str) → ArePlain s → clean s ≡ s
unfolding clean
clean-plain s a =
    ap
      (λ (b : Bool).
        if b
        then codes "/" ++ join (clean_names b [] (names_of s)) (codes "/")
        else or_dot (join (clean_names b [] (names_of s)) (codes "/")))
      (has_no_root s a)
    ∙ ap (λ ns. or_dot (join ns (codes "/"))) (clean_names-names false [] (names_of s) a)
    ∙ ap or_dot (join-names_of s)
    ∙ is_something s a

pub path_join-plain : (s t : Str) → ArePlain s → ArePlain t → path_join s t ≡ s ++ 47 ∷ t
unfolding path_join split_byte
path_join-plain [] t (h, a) b = no_empty_name h
path_join-plain (c ∷ s) [] a (h, b) = no_empty_name h
path_join-plain (c ∷ s) (d ∷ t) a b = clean-plain ((c ∷ s) ++ 47 ∷ d ∷ t) (
    subst (All IsName) (sym (names_of-append (c ∷ s) (d ∷ t)))
      (All-append IsName (names_of (c ∷ s)) (names_of (d ∷ t)) a b))

-- generateKey is the prefix, a slash and the key.
pub generate_key-plain :
    (config : StorageConfig) (key : Str)
    → ArePlain config.key_prefix
    → ArePlain key
    → generate_key config key ≡ config.key_prefix ++ 47 ∷ key
unfolding generate_key
generate_key-plain config key p k = path_join-plain config.key_prefix key p k

-- Two plain keys that consul sees as one are the same.
pub generate_key-injective :
    (config : StorageConfig) (j k : Str)
    → ArePlain config.key_prefix
    → ArePlain j
    → ArePlain k
    → generate_key config j ≡ generate_key config k
    → j ≡ k
generate_key-injective config j k p a b e = append_cancel_left (config.key_prefix ++ 47 ∷ []) j k (
    append_assoc config.key_prefix (47 ∷ []) j
    ∙ sym (generate_key-plain config j p a)
    ∙ e
    ∙ generate_key-plain config k p b
    ∙ sym (append_assoc config.key_prefix (47 ∷ []) k))
