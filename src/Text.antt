-- ===== src/Text.antt =====
-- Python strings as lists of code points, with the `str` methods that the program calls. The case
-- tables of Unicode are no part of the program: they are the parameter `Unicode`.
pub mod Words
use rtc_asr.Prelude.{
  ℕ, Bool, true, false, ◌&&◌, ◌||◌, List, [], ◌∷◌, ◌++◌, String, leb, ◌==◌, if◌then◌else◌,
}
use Prim.Native.Char.{code}
use Prim.Native.String
use mathlib.Core.List.{reverse}

abbrev pub Text : Type 0
Text = List ℕ

-- Full case mappings, one code point at a time.
pub record Unicode : Type 0 where
  pub lower : ℕ → Text
  pub casefold : ℕ → Text

-- The code points of a literal.
abbrev pub codes : String → Text
codes String.[] = []
codes (String.◌∷◌ c s) = code c ∷ codes s

abbrev pub text_eq : Text → Text → Bool
text_eq [] [] = true
text_eq (a ∷ s) (b ∷ t) = a == b && text_eq s t
text_eq _ _ = false

abbrev pub is_empty : Text → Bool
is_empty [] = true
is_empty (c ∷ s) = false

-- `c.isspace()`, as `str.strip` and `str.split` use it.
unfoldable pub is_space : ℕ → Bool
is_space c =
    (leb 9 c && leb c 13)
    || (leb 28 c && leb c 32)
    || c == 0x85
    || c == 0xa0
    || c == 0x1680
    || (leb 0x2000 c && leb c 0x200a)
    || c == 0x2028
    || c == 0x2029
    || c == 0x202f
    || c == 0x205f
    || c == 0x3000

unfoldable pub lstrip : Text → Text
lstrip [] = []
lstrip (c ∷ s) = let rest = lstrip s in if is_space c then rest else c ∷ s

-- `s.strip()`
unfoldable pub strip : Text → Text
unfolding lstrip is_space
strip s = reverse (lstrip (reverse (lstrip s)))

-- Each code point mapped by a case table.
unfoldable pub fold_case : (ℕ → Text) → Text → Text
fold_case table [] = []
fold_case table (c ∷ s) = table c ++ fold_case table s
