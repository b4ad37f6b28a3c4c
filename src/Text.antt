-- ===== src/Text.antt =====
-- Go's strings as lists of bytes, and the functions of Go's `strings`, `slices` and `sort` packages
-- that the code calls. The texts are ASCII: the API server admits nothing else in names, labels
-- and hostnames. So `len` counts characters, and `ToLower` and `TrimSpace` act on ASCII bytes.
pub mod Affixes
pub mod Order
use Prim.Native.Char.{code}
use Prim.Native.String.{String}
use ingress_nginx_gateway_br.Common.{
  ℕ, suc, zero, ◌+◌, ◌-◌, ◌≡◌, refl, ◌↔◌, ◌⊎◌, inl, inr, Bool, true, false, ◌&&◌, ◌||◌, Option,
  none, some, List, [], ◌∷◌, ◌++◌, map, arith, ltb, leb, nat_beq, nat_beq_iff, if◌then◌else◌, Eq,
  ◌==◌, add, contains, any, sort_by, length,
}

abbrev pub Text : Type 0
Text = List ℕ

-- The bytes of a literal.
abbrev pub codes : String → Text
codes String.[] = []
codes (String.◌∷◌ c s) = code c ∷ codes s

unfoldable pub text_eq : Text → Text → Bool
text_eq [] [] = true
text_eq [] (_ ∷ _) = false
text_eq (_ ∷ _) [] = false
text_eq (c ∷ s) (d ∷ t) = nat_beq c d && text_eq s t

pub text_eq_iff : (s t : Text) → (text_eq s t ≡ true) ↔ (s ≡ t)
unfolding text_eq
text_eq_iff [] [] = ground arith
text_eq_iff [] (_ ∷ _) = ground arith
text_eq_iff (_ ∷ _) [] = ground arith
text_eq_iff (c ∷ s) (d ∷ t) = ground (arith, text_eq_iff s t)

instance abbrev pub text_key : Eq Text
text_key = record { same = text_eq; same_iff = text_eq_iff }

-- `s < t`: bytewise, a proper prefix first.
unfoldable pub text_lt : Text → Text → Bool
text_lt s [] = false
text_lt [] (_ ∷ _) = true
text_lt (c ∷ s) (d ∷ t) = ltb c d || nat_beq c d && text_lt s t

unfoldable pub is_empty : Text → Bool
is_empty [] = true
is_empty (_ ∷ _) = false

unfoldable pub lower_char : ℕ → ℕ
lower_char c = if leb b'A' c && leb c b'Z' then c + 32 else c

unfoldable pub to_lower : Text → Text
unfolding lower_char
to_lower s = map lower_char s

-- Tab, line feed, vertical tab, form feed, carriage return and the space.
unfoldable pub is_space : ℕ → Bool
is_space c = leb 9 c && leb c 13 || nat_beq c 32

unfoldable pub trim_left_by : (ℕ → Bool) → Text → Text
trim_left_by p [] = []
trim_left_by p (c ∷ s) = let rest = trim_left_by p s in if p c then rest else c ∷ s

unfoldable pub trim_right_by : (ℕ → Bool) → Text → Text
unfolding is_empty
trim_right_by p [] = []
trim_right_by p (c ∷ s) =
    let rest = trim_right_by p s in if p c && is_empty rest then [] else c ∷ rest

unfoldable pub trim_space : Text → Text
unfolding is_space trim_left_by trim_right_by
trim_space s = trim_right_by is_space (trim_left_by is_space s)

unfoldable pub has_prefix : Text → Text → Bool
has_prefix s [] = true
has_prefix [] (_ ∷ _) = false
has_prefix (c ∷ s) (d ∷ p) = nat_beq c d && has_prefix s p

unfoldable pub has_suffix : Text → Text → Bool
unfolding text_eq
has_suffix [] p = text_eq [] p
has_suffix (c ∷ s) p = text_eq (c ∷ s) p || has_suffix s p

-- `strings.TrimPrefix`
unfoldable pub trim_prefix : Text → Text → Text
unfolding has_prefix
trim_prefix s [] = s
trim_prefix [] (_ ∷ _) = []
trim_prefix (c ∷ s) (d ∷ p) = if has_prefix (c ∷ s) (d ∷ p) then trim_prefix s p else c ∷ s

unfoldable pub has_byte : ℕ → Text → Bool
has_byte b [] = false
has_byte b (c ∷ s) = nat_beq c b || has_byte b s

-- `strings.ContainsAny`
unfoldable pub contains_any : Text → Text → Bool
unfolding has_byte
contains_any [] chars = false
contains_any (c ∷ s) chars = has_byte c chars || contains_any s chars

-- `strings.IndexByte`; `none` is -1.
unfoldable pub index_byte : Text → ℕ → Option ℕ
index_byte [] b = none
index_byte (c ∷ s) b =
    if nat_beq c b then some 0 else elim (index_byte s b) [ none ↦ none | some i ↦ some (i + 1) ]

-- `s[n:]`
abbrev pub drop : ℕ → Text → Text
drop zero s = s
drop (suc n) [] = []
drop (suc n) (c ∷ s) = drop n s

abbrev add_to_first : ℕ → List Text → List Text
add_to_first c [] = (c ∷ []) ∷ []
add_to_first c (s ∷ parts) = (c ∷ s) ∷ parts

-- `strings.Split` at a separator of one byte: never the empty list.
unfoldable pub split : Text → ℕ → List Text
split [] sep = [] ∷ []
split (c ∷ s) sep = if nat_beq c sep then [] ∷ split s sep else add_to_first c (split s sep)

-- `strings.SplitN(s, sep, 2)` when it gives two parts.
unfoldable pub cut : Text → ℕ → Option (Text × Text)
cut [] sep = none
cut (c ∷ s) sep =
    if nat_beq c sep
    then some ([], s)
    else elim (cut s sep) [ none ↦ none | some (a, b) ↦ some (c ∷ a, b) ]

unfoldable pub join : List Text → Text → Text
join [] sep = []
join (s ∷ []) sep = s
join (s ∷ t ∷ parts) sep = s ++ (sep ++ join (t ∷ parts) sep)

unfoldable pub sort_texts : List Text → List Text
unfolding text_lt sort_by
sort_texts = sort_by text_lt

-- Every function above, for the tests.
unfoldable pub text_functions : Unit {0}
unfolding text_eq text_lt is_empty lower_char to_lower is_space trim_left_by trim_right_by
    trim_space has_prefix has_suffix trim_prefix has_byte contains_any index_byte split cut join
    sort_texts
text_functions = tt
