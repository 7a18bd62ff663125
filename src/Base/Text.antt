-- ===== src/Base/Text.antt =====
-- Go strings as byte lists, with the functions of package strings that the program calls.
use Prim.Native.Char.{code}
use mathlib.Core.Option
use mathlib.Core.List.{reverse}
use cdp_cache.Base.{
  ℕ, suc, ◌+◌, ◌≡◌, refl, subst, ◌≢◌, ◌↔◌, inl, inr, Bool, true, false, ◌&&◌, ◌||◌, Option, none,
  some, List, [], ◌∷◌, ◌++◌, String, arith, ◌==◌, if◌then◌else◌, Bool-cases, length, leb, drop, map,
}

abbrev pub Str : Type 0
Str = List ℕ

-- The code points of a literal; these are its bytes when the text is ASCII.
abbrev pub codes : String → Str
codes String.[] = []
codes (String.◌∷◌ c s) = code c ∷ codes s

-- Go's == on strings.
unfoldable pub str_eq : Str → Str → Bool
str_eq [] [] = true
str_eq [] (y ∷ ys) = false
str_eq (x ∷ xs) [] = false
str_eq (x ∷ xs) (y ∷ ys) = (x == y) && str_eq xs ys

pub str_eq_sound : (s t : Str) → str_eq s t ≡ true → s ≡ t
unfolding str_eq
str_eq_sound [] [] h = refl
str_eq_sound [] (y ∷ ys) h = ground arith
str_eq_sound (x ∷ xs) [] h = ground arith
str_eq_sound (x ∷ xs) (y ∷ ys) h = ground (arith, str_eq_sound xs ys)

pub str_eq_refl : (s : Str) → str_eq s s ≡ true
unfolding str_eq
str_eq_refl [] = refl
str_eq_refl (x ∷ xs) = ground (arith, str_eq_refl xs)

pub str_eq_iff : (s t : Str) → (str_eq s t ≡ true) ↔ (s ≡ t)
str_eq_iff s t = (str_eq_sound s t, λ e. subst (λ u. str_eq s u ≡ true) e (str_eq_refl s))

pub str_eq_of_ne : {s t : Str} → s ≢ t → str_eq s t ≡ false
str_eq_of_ne {s} {t} n = elim (Bool-cases (str_eq s t)) [
  | inl e ↦ absurd (n ((str_eq_iff s t).0 e))
  | inr e ↦ e
]

pub ne_of_str_eq : (s t : Str) → str_eq s t ≡ false → s ≢ t
ne_of_str_eq s t h e = ground (arith, (str_eq_iff s t).1 e)

-- strings.HasPrefix
unfoldable pub has_prefix : Str → Str → Bool
has_prefix s [] = true
has_prefix [] (y ∷ ys) = false
has_prefix (x ∷ xs) (y ∷ ys) = (x == y) && has_prefix xs ys

-- strings.TrimPrefix
unfoldable pub trim_prefix : Str → Str → Str
unfolding has_prefix
trim_prefix s p = if has_prefix s p then drop (length p) s else s

-- strings.HasSuffix
unfoldable pub has_suffix : Str → Str → Bool
unfolding has_prefix
has_suffix s t = has_prefix (reverse s) (reverse t)

-- Membership of a byte in a string.
unfoldable pub contains_byte : Str → ℕ → Bool
contains_byte [] c = false
contains_byte (x ∷ xs) c = (x == c) || contains_byte xs c

-- strings.TrimLeft: all leading bytes that occur in the cutset.
unfoldable pub trim_left : Str → Str → Str
unfolding contains_byte
trim_left [] cutset = []
trim_left (x ∷ xs) cutset =
    let rest = trim_left xs cutset in if contains_byte cutset x then rest else x ∷ xs

-- strings.Index for a separator of one byte; `none` is -1.
unfoldable pub index_byte : Str → ℕ → Option ℕ
index_byte [] c = none
index_byte (x ∷ xs) c = if x == c then some 0 else Option.map suc (index_byte xs c)

-- The pieces of a string: a list that is not empty.
pub record Pieces : Type 0 where
  pub first : Str
  pub others : List Str

abbrev pub pieces_list : Pieces → List Str
pieces_list p = p.first ∷ p.others

-- strings.Split for a separator of one byte: there is always a first piece.
unfoldable pub split_byte : Str → ℕ → Pieces
split_byte [] c = record { first = []; others = [] }
split_byte (x ∷ xs) c =
    let p = split_byte xs c in
    if x == c
    then record { first = []; others = pieces_list p }
    else record p { first = x ∷ p.first }

-- strings.ToLower on ASCII letters.
unfoldable pub lower_byte : ℕ → ℕ
lower_byte c = if leb b'A' c && leb c b'Z' then c + 32 else c

unfoldable pub to_lower : Str → Str
unfolding lower_byte
to_lower s = map lower_byte s

-- The white space of ASCII: \t \n \v \f \r and the space.
unfoldable pub is_space : ℕ → Bool
is_space c = (leb 9 c && leb c 13) || (c == 32)

unfoldable pub trim_space_left : Str → Str
unfolding is_space
trim_space_left [] = []
trim_space_left (x ∷ xs) = let rest = trim_space_left xs in if is_space x then rest else x ∷ xs

-- strings.TrimSpace on ASCII text.
unfoldable pub trim_space : Str → Str
unfolding trim_space_left
trim_space s = reverse (trim_space_left (reverse (trim_space_left s)))

-- strings.Join
unfoldable pub join : List Str → Str → Str
join [] sep = []
join (s ∷ []) sep = s
join (s ∷ t ∷ rest) sep = s ++ sep ++ join (t ∷ rest) sep

-- The bytes of the pieces of a body, in order.
unfoldable pub concat : List Str → Str
concat [] = []
concat (s ∷ ss) = s ++ concat ss
