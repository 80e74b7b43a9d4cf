-- ===== src/Common/Texts.antt =====
-- Comparison of texts, under one name for the code's `==` on strings.
use Prim.Native.String.{String}
use mathlib.Core.Bool.{Bool}
use text.Mathlib.Text.{◌==◌}

abbrev pub str_eq : String → String → Bool
str_eq a b = a == b
