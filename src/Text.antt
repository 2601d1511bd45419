-- ===== src/Text.antt =====
-- Texts of C: a list of the characters in front of the terminating zero. What the code takes from
-- string.h and stdio.h on them, as the language's library documents it.
pub mod Decimal
use Prim.Native.Char.{code}
use Prim.Native.String.{String}
use tm4c123gxl_ota.Base.{
  ℕ, zero, suc, ◌+◌, ◌-◌, ◌*◌, ◌/◌, ◌%◌, List, [], ◌∷◌, ◌++◌, Option, none, some, Bool, true, false,
  ◌&&◌, ◌||◌, not, ltb, leb, ◌==◌, ◌!=◌, if◌then◌else◌, length, take, drop,
}

abbrev pub Text : Type 0
Text = List ℕ

-- The characters of a literal.
abbrev pub codes : String → Text
codes String.[] = []
codes (String.◌∷◌ c s) = code c ∷ codes s

-- The text that a buffer holds: the characters in front of its first zero.
abbrev pub c_string : List ℕ → Text
c_string [] = []
c_string (c ∷ s) = if c == 0 then [] else c ∷ c_string s

-- `*text`
abbrev pub head_char : Text → ℕ
head_char [] = 0
head_char (c ∷ s) = c

abbrev pub is_digit : ℕ → Bool
is_digit c = leb b'0' c && leb c b'9'

-- `strcmp(a, b) == 0`
unfoldable pub same_text : Text → Text → Bool
same_text [] [] = true
same_text [] (d ∷ t) = false
same_text (c ∷ s) [] = false
same_text (c ∷ s) (d ∷ t) = if c == d then same_text s t else false

-- `strncmp(text, prefix, strlen(prefix)) == 0`
unfoldable pub starts_with : Text → Text → Bool
starts_with [] text = true
starts_with (c ∷ s) [] = false
starts_with (c ∷ s) (d ∷ t) = if c == d then starts_with s t else false

-- `strstr(text, part) != NULL`
unfoldable pub has_part : Text → Text → Bool
has_part part [] = starts_with part []
has_part part (c ∷ s) = starts_with part (c ∷ s) || has_part part s

-- The text behind the first occurrence of a character, and the text in front of it.
unfoldable pub split_at : ℕ → Text → Option (Text × Text)
split_at c [] = none
split_at c (d ∷ s) =
    if c == d
    then some ([], s)
    else elim (split_at c s) [ none ↦ none | some (before, after) ↦ some (d ∷ before, after) ]

-- The digits of a number in front of `out`, lowest first; a round for each unit is more than enough.
unfoldable pub digits : ℕ → ℕ → Text → Text
digits zero n out = out
digits (suc rounds) n out =
    let rest = digits rounds (n / 10) ((b'0' + n % 10) ∷ out) in if n == 0 then out else rest

-- What `%u` prints.
unfoldable pub decimal : ℕ → Text
decimal n = if n == 0 then b'0' ∷ [] else digits n n []

-- What `snprintf` stores of a text in a buffer of `size` bytes, and whether it all fits.
abbrev pub printed : ℕ → Text → Text
printed size text = take (size - 1) text

abbrev pub fits : ℕ → Text → Bool
fits size text = ltb (length text) size
