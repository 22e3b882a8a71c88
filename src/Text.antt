-- ===== src/Text.antt =====
-- Go strings. A text is the list of its code points: `range`, `[]rune(s)` and
-- `utf8.RuneCountInString` see the list itself, `len` is `byte_len`. Texts that are not valid
-- UTF-8 are outside the model.
pub mod Laws
pub mod Trims
use Prim.Native.Char.{code}
use Prim.Native.String.{String}
use gen_runner.Prelude.{
  ℕ, zero, suc, ◌+◌, ◌-◌, ◌≤◌, ◌<◌, ◌≡◌, refl, ◌↔◌, Bool, true, false, ◌&&◌, ◌||◌, Option, none,
  some, List, [], ◌∷◌, ◌++◌, reverse, ltb, leb, ◌==◌, if◌then◌else◌, length, arith,
}

abbrev pub Text : Type 0
Text = List ℕ

-- The code points of a literal.
abbrev pub codes : String → Text
codes String.[] = []
codes (String.◌∷◌ c s) = code c ∷ codes s

-- Equality of texts, `==` on strings.
abbrev pub text_eq : Text → Text → Bool
text_eq [] [] = true
text_eq [] (d ∷ t) = false
text_eq (c ∷ s) [] = false
text_eq (c ∷ s) (d ∷ t) = c == d && text_eq s t

-- Whether a text is one of a list, or a key of a set.
abbrev pub contains : List Text → Text → Bool
contains [] t = false
contains (s ∷ l) t = text_eq s t || contains l t

-- `unicode.IsSpace`
unfoldable pub is_space : ℕ → Bool
is_space c =
    (leb 9 c && leb c 13)
    || c == 32
    || c == 0x85
    || c == 0xa0
    || c == 0x1680
    || (leb 0x2000 c && leb c 0x200a)
    || c == 0x2028
    || c == 0x2029
    || c == 0x202f
    || c == 0x205f
    || c == 0x3000

-- `strings.TrimLeftFunc`
unfoldable pub trim_left_func : (ℕ → Bool) → Text → Text
trim_left_func p [] = []
trim_left_func p (c ∷ s) = if p c then trim_left_func p s else c ∷ s

-- `strings.TrimRightFunc`
unfoldable pub trim_right_func : (ℕ → Bool) → Text → Text
unfolding trim_left_func
trim_right_func p s = reverse (trim_left_func p (reverse s))

-- `strings.TrimSpace`
unfoldable pub trim_space : Text → Text
unfolding trim_left_func trim_right_func is_space
trim_space s = trim_right_func is_space (trim_left_func is_space s)

-- `strings.HasPrefix(s, p)`
abbrev pub has_prefix : Text → Text → Bool
has_prefix s [] = true
has_prefix [] (d ∷ p) = false
has_prefix (c ∷ s) (d ∷ p) = c == d && has_prefix s p

-- The bytes of one code point in UTF-8, and `len` of a string.
abbrev pub rune_len : ℕ → ℕ
rune_len c = if ltb c 0x80 then 1 else if ltb c 0x800 then 2 else if ltb c 0x10000 then 3 else 4

unfoldable pub byte_len : Text → ℕ
byte_len [] = 0
byte_len (c ∷ s) = rune_len c + byte_len s
