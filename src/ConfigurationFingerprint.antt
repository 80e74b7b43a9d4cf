-- ===== src/ConfigurationFingerprint.antt =====
-- easynav_system safety/ConfigurationFingerprint: the texts of string values in the dump of a
-- configuration. A text is the list of its bytes here.
pub mod Unambiguous
use easy_navigation.Common.{ℕ, ltb, ◌==◌, ◌||◌, ◌+◌, ◌/◌, ◌%◌, List, [], ◌∷◌, ◌++◌, if◌then◌else◌}

-- A digit of `std::hex`.
unfoldable pub hex_digit : ℕ → ℕ
hex_digit n = if ltb n 10 then 48 + n else 87 + n

-- The switch on a byte: the quote, the backslash, \n, \r and \t, and the other control codes.
unfoldable pub escape : ℕ → List ℕ
unfolding hex_digit
escape c =
    if c == 34
    then 92 ∷ 34 ∷ []
    else if c == 92
    then 92 ∷ 92 ∷ []
    else if c == 10
    then 92 ∷ 110 ∷ []
    else if c == 13
    then 92 ∷ 114 ∷ []
    else if c == 9
    then 92 ∷ 116 ∷ []
    else if ltb c 32 || c == 127
    then 92 ∷ 120 ∷ hex_digit (c / 16) ∷ hex_digit (c % 16) ∷ []
    else c ∷ []

unfoldable pub escape_all : List ℕ → List ℕ
unfolding escape
escape_all [] = []
escape_all (c ∷ text) = escape c ++ escape_all text

unfoldable pub quote : List ℕ → List ℕ
unfolding escape_all
quote text = 34 ∷ (escape_all text ++ (34 ∷ []))

-- list(values, quote): from the second value on, each has ", " before it.
unfoldable pub list_rest : List (List ℕ) → List ℕ
unfolding quote
list_rest [] = []
list_rest (value ∷ values) = (44 ∷ 32 ∷ quote value) ++ list_rest values

unfoldable pub list_items : List (List ℕ) → List ℕ
unfolding quote list_rest
list_items [] = []
list_items (value ∷ values) = quote value ++ list_rest values

unfoldable pub list : List (List ℕ) → List ℕ
unfolding list_items
list values = 91 ∷ (list_items values ++ (93 ∷ []))
