-- ===== src/Controller/Escape.antt =====
-- A parameter of a command that is escaped.
use tm4c123gxl_ota.Base.{
  ℕ, ◌+◌, ◌≤◌, ◌<◌, ◌≡◌, ◌≢◌, ◌⊎◌, [], ◌∷◌, Option, none, some, length, if◌then◌else◌, ◌==◌,
}
use tm4c123gxl_ota.Text.{Text}
use tm4c123gxl_ota.Controller.Calls.{is_special}

-- How a reader of a quoted parameter takes it: a backslash hands over the character behind it. None
-- for a parameter that a quote or a comma ends, or that ends behind a backslash.
unfoldable pub unescape : Text → Option Text
unescape [] = some []
unescape (c ∷ []) = if is_special c then none else some (c ∷ [])
unescape (c ∷ d ∷ s) =
    let plain = unescape (d ∷ s) in
    let escaped = unescape s in
    if c == b'\\'
    then elim escaped [ none ↦ none | some text ↦ some (d ∷ text) ]
    else if is_special c
    then none
    else elim plain [ none ↦ none | some text ↦ some (c ∷ text) ]

-- The bytes that the escaped text takes.
abbrev pub escaped_length : Text → ℕ
escaped_length [] = 0
escaped_length (c ∷ s) = (if is_special c then 2 else 1) + escaped_length s

IsEscape : ℕ → ℕ → Text → Option Text → Type 0
IsEscape output_size used input none = (output_size ≤ used + escaped_length input) × (input ≢ [])
IsEscape output_size used input (some text) =
    (unescape text ≡ some input)
    × (length text ≡ escaped_length input)
    × ((input ≡ []) ⊎ (used + length text < output_size))
