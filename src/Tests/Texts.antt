-- ===== src/Tests/Texts.antt =====
-- The dumped texts of string arrays.
use easy_navigation.Common.{ℕ, List, [], ◌∷◌, ◌++◌, ◌≡◌, ◌↔◌, refl}
use easy_navigation.ConfigurationFingerprint.{list}
use easy_navigation.ConfigurationFingerprint.Unambiguous.{list-append_iff}

-- The values a"b and, of a single control code, \x1f.
abbrev values : List (List ℕ)
values = (97 ∷ 34 ∷ 98 ∷ []) ∷ (31 ∷ []) ∷ []

values_text :
    list values
    ≡ 91 ∷ 34 ∷ 97 ∷ 92 ∷ 34 ∷ 98 ∷ 34 ∷ 44 ∷ 32 ∷ 34 ∷ 92 ∷ 120 ∷ 49 ∷ 102 ∷ 34 ∷ 93 ∷ []
unfolding list
values_text = refl

abbrev line : List ℕ
line = 10 ∷ []

-- The comma of one value, and two values.
list-append_iff_example :
    (list values ++ line ≡ list ((97 ∷ 34 ∷ 98 ∷ 34 ∷ 44 ∷ 32 ∷ 34 ∷ 31 ∷ []) ∷ []) ++ [])
    ↔ ((values ≡ (97 ∷ 34 ∷ 98 ∷ 34 ∷ 44 ∷ 32 ∷ 34 ∷ 31 ∷ []) ∷ []) × (line ≡ []))
list-append_iff_example =
    list-append_iff values ((97 ∷ 34 ∷ 98 ∷ 34 ∷ 44 ∷ 32 ∷ 34 ∷ 31 ∷ []) ∷ []) line []
