-- ===== src/Text.antt =====
-- Go strings as sequences of code points (valid UTF-8), and the functions of the packages strings
-- and unicode that the program calls, written out from their documentation.
pub mod Trim
pub mod Parts
pub mod Equal
pub mod Number
use Prim.Native.Char.{code}
use ankiced.Base.{
  ℕ, ◌+◌, String, Bool, true, false, ◌&&◌, ◌||◌, List, [], ◌∷◌, ◌++◌, map, any, leb, ltb, ◌==◌,
  if◌then◌else◌,
}

abbrev pub Text : Type 0
Text = List ℕ

-- The code points of a literal. `String` has its own `[]` and `∷`.
abbrev pub codes : String → Text
codes String.[] = []
codes (String.◌∷◌ c s) = code c ∷ codes s

abbrev pub is_empty : Text → Bool
is_empty [] = true
is_empty (_ ∷ _) = false

unfoldable pub eq_text : Text → Text → Bool
eq_text [] [] = true
eq_text (a ∷ s) (b ∷ t) = a == b && eq_text s t
eq_text _ _ = false

-- unicode.IsSpace: the White_Space property.
unfoldable pub is_space : ℕ → Bool
is_space c =
    (leb 9 c && leb c 13)
    || c == 32
    || c == 0x85
    || c == 0xA0
    || c == 0x1680
    || (leb 0x2000 c && leb c 0x200A)
    || c == 0x2028
    || c == 0x2029
    || c == 0x202F
    || c == 0x205F
    || c == 0x3000

-- unicode.IsControl: the category Cc.
unfoldable pub is_control : ℕ → Bool
is_control c = leb c 0x1F || (leb 0x7F c && leb c 0x9F)

pub trim_left : (ℕ → Bool) → Text → Text
trim_left p [] = []
trim_left p (c ∷ s) = if p c then trim_left p s else c ∷ s

abbrev drop_blank : Bool → ℕ → Text → Text
drop_blank true c [] = []
drop_blank _ c s = c ∷ s

-- The last code points go as long as they pass the test.
unfoldable pub trim_right : (ℕ → Bool) → Text → Text
trim_right p [] = []
trim_right p (c ∷ s) = drop_blank (p c) c (trim_right p s)

-- strings.TrimSpace
unfoldable pub trim_space : Text → Text
unfolding trim_left trim_right is_space
trim_space s = trim_right is_space (trim_left is_space s)

-- strings.Contains of one code point.
unfoldable pub has_rune : ℕ → Text → Bool
has_rune r = any (λ c. c == r)

unfoldable pub has_prefix : Text → Text → Bool
has_prefix s [] = true
has_prefix [] (_ ∷ _) = false
has_prefix (a ∷ s) (b ∷ p) = a == b && has_prefix s p

-- strings.Contains
unfoldable pub contains : Text → Text → Bool
unfolding has_prefix
contains [] p = has_prefix [] p
contains (c ∷ s) p = let rest = contains s p in has_prefix (c ∷ s) p || rest

-- strings.TrimPrefix where the prefix is there.
unfoldable pub drop_prefix : Text → Text → Text
drop_prefix s [] = s
drop_prefix [] (_ ∷ _) = []
drop_prefix (_ ∷ s) (_ ∷ p) = drop_prefix s p

unfoldable pub has_suffix : Text → Text → Bool
unfolding eq_text
has_suffix [] p = eq_text [] p
has_suffix (a ∷ s) p = let rest = has_suffix s p in eq_text (a ∷ s) p || rest

-- strings.Split by a separator of one code point.
abbrev put_head : ℕ → List Text → List Text
put_head c [] = (c ∷ []) ∷ []
put_head c (p ∷ ps) = (c ∷ p) ∷ ps

unfoldable pub split : ℕ → Text → List Text
split sep [] = [] ∷ []
split sep (c ∷ s) = let rest = split sep s in if c == sep then [] ∷ rest else put_head c rest

-- strings.Join
unfoldable pub join : List Text → Text → Text
join [] sep = []
join (p ∷ []) sep = p
join (p ∷ q ∷ ps) sep = p ++ (sep ++ join (q ∷ ps) sep)

-- strings.ToLower. `lower` is unicode.ToLower beyond ASCII.
unfoldable pub lower_rune : (ℕ → ℕ) → ℕ → ℕ
lower_rune lower c =
    if ltb c 0x80 then (if leb b'A' c && leb c b'Z' then c + 32 else c) else lower c

unfoldable pub to_lower : (ℕ → ℕ) → Text → Text
unfolding lower_rune
to_lower lower = map (lower_rune lower)
