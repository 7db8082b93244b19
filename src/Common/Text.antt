-- ===== src/Common/Text.antt =====
-- Go's `string` and the functions of its package `strings` that the operator calls. A text is
-- the list of its code points: the API server hands out valid UTF-8 only, on which Go's order of
-- bytes is the order of code points.
pub mod Equality
pub mod Lines
pub mod Prefix
use Prim.Native.Nat.{ℕ, zero, suc, ◌/◌, ◌%◌, ◌+◌}
use Prim.Native.Char.{code}
use Prim.Native.String.{String}
use mathlib.Core.Bool.{Bool, true, false, ◌&&◌, ◌||◌}
use mathlib.Core.List.{List, [], ◌∷◌, ◌++◌, map}
use coredns_manager_operator.Common.Tests.{◌==◌, ltb, leb, if◌then◌else◌}

abbrev pub Text : Type 0
Text = List ℕ

-- The code points of a literal.
abbrev pub text : String → Text
text String.[] = []
text (String.◌∷◌ c s) = code c ∷ text s

abbrev pub newline : ℕ
newline = 10

abbrev pub tab : ℕ
tab = 9

-- `a == b` on strings
unfoldable pub eqb : Text → Text → Bool
eqb [] [] = true
eqb (a ∷ s) (b ∷ t) = a == b && eqb s t
eqb _ _ = false

-- `a < b` on strings
unfoldable pub lessb : Text → Text → Bool
lessb [] [] = false
lessb [] (b ∷ t) = true
lessb (a ∷ s) [] = false
lessb (a ∷ s) (b ∷ t) = ltb a b || (a == b && lessb s t)

-- strings.HasPrefix
unfoldable pub has_prefix : Text → Text → Bool
has_prefix s [] = true
has_prefix [] (b ∷ p) = false
has_prefix (a ∷ s) (b ∷ p) = a == b && has_prefix s p

-- What is left of a text behind as many characters as the prefix has.
unfoldable pub drop_prefix : Text → Text → Text
drop_prefix s [] = s
drop_prefix [] (b ∷ p) = []
drop_prefix (a ∷ s) (b ∷ p) = drop_prefix s p

-- strings.TrimPrefix
unfoldable pub trim_prefix : Text → Text → Text
unfolding has_prefix drop_prefix
trim_prefix s p = if has_prefix s p then drop_prefix s p else s

-- strings.HasSuffix
unfoldable pub has_suffix : Text → Text → Bool
unfolding eqb
has_suffix [] t = eqb [] t
has_suffix (a ∷ s) t = eqb (a ∷ s) t || has_suffix s t

-- strings.TrimSuffix
unfoldable pub trim_suffix : Text → Text → Text
unfolding eqb
trim_suffix [] t = []
trim_suffix (a ∷ s) t = if eqb (a ∷ s) t then [] else a ∷ trim_suffix s t

-- strings.Contains
unfoldable pub contains : Text → Text → Bool
unfolding has_prefix
contains [] t = has_prefix [] t
contains (a ∷ s) t = has_prefix (a ∷ s) t || contains s t

-- strings.ReplaceAll, of one character by one character
unfoldable pub replace_all : Text → ℕ → ℕ → Text
replace_all [] old new = []
replace_all (a ∷ s) old new = (if a == old then new else a) ∷ replace_all s old new

-- unicode.IsSpace
unfoldable pub is_space : ℕ → Bool
is_space c =
    (leb 9 c && leb c 13)
    || c == 32
    || c == 0x85
    || c == 0xA0
    || c == 0x1680
    || (leb 0x2000 c && leb c 0x200A)
    || c == 0x2028
    || c == 0x2029
    || c == 0x202F
    || c == 0x205F
    || c == 0x3000

unfoldable pub trim_left : Text → Text
unfolding is_space
trim_left [] = []
trim_left (c ∷ s) = if is_space c then trim_left s else c ∷ s

-- A character goes if it is white space and nothing is left behind it.
unfoldable pub put_back : ℕ → Text → Text
unfolding is_space
put_back c [] = if is_space c then [] else c ∷ []
put_back c (d ∷ s) = c ∷ d ∷ s

unfoldable pub trim_right : Text → Text
unfolding put_back
trim_right [] = []
trim_right (c ∷ s) = put_back c (trim_right s)

-- strings.TrimSpace
unfoldable pub trim_space : Text → Text
unfolding trim_left trim_right
trim_space s = trim_right (trim_left s)

-- Puts a character before the first piece.
unfoldable pub extend_first : ℕ → List Text → List Text
extend_first c [] = (c ∷ []) ∷ []
extend_first c (p ∷ ps) = (c ∷ p) ∷ ps

-- strings.Split, at a separator of one character
unfoldable pub split : Text → ℕ → List Text
unfolding extend_first
split [] sep = [] ∷ []
split (c ∷ s) sep = let rest = split s sep in if c == sep then [] ∷ rest else extend_first c rest

-- strings.Join, with a separator of one character
unfoldable pub join : List Text → ℕ → Text
join [] sep = []
join (p ∷ []) sep = p
join (p ∷ q ∷ ps) sep = p ++ sep ∷ join (q ∷ ps) sep
