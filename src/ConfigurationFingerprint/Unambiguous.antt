-- ===== src/ConfigurationFingerprint/Unambiguous.antt =====
-- A text that holds the value of a string or of a string array says what the value is and where it
-- ends.
use easy_navigation.Common.{
  ℕ, ltb, ◌==◌, ◌||◌, ◌+◌, ◌*◌, ◌/◌, ◌%◌, List, [], ◌∷◌, ◌++◌, append_assoc, if◌then◌else◌, Option,
  none, some, ◌≡◌, ◌↔◌, true, ◌-◌, refl, sym, ap, ◌∙◌, arith,
}
use easy_navigation.ConfigurationFingerprint.{
  hex_digit, escape, escape_all, quote, list_rest, list_items, list,
}

digit_value : ℕ → ℕ
digit_value d = if ltb d 58 then d - 48 else d - 87

from_hex : List ℕ → Option (ℕ × List ℕ)
from_hex (h ∷ l ∷ text) = some ((16 * digit_value h + digit_value l), text)
from_hex _ = none

unescape : List ℕ → Option (ℕ × List ℕ)
unescape [] = none
unescape (e ∷ text) =
    if e == 110
    then some (10, text)
    else if e == 114
    then some (13, text)
    else if e == 116
    then some (9, text)
    else if e == 120
    then from_hex text
    else some (e, text)

-- The byte at the head of a quoted text, none at its end.
next : List ℕ → Option (ℕ × List ℕ)
next [] = none
next (c ∷ text) = if c == 92 then unescape text else if c == 34 then none else some (c, text)

digit_lem : (n : ℕ) → ltb n 16 ≡ true → digit_value (hex_digit n) ≡ n
unfolding digit_value hex_digit
digit_lem n h = ground arith

control_digits :
    (c : ℕ)
    → (ltb c 32 || c == 127) ≡ true
    → (ltb (c / 16) 16 ≡ true) × (ltb (c % 16) 16 ≡ true) × (16 * (c / 16) + c % 16 ≡ c)
control_digits c h = ground arith

next_control :
    (c : ℕ) (text : List ℕ)
    → (ltb c 32 || c == 127) ≡ true
    → next (92 ∷ 120 ∷ hex_digit (c / 16) ∷ hex_digit (c % 16) ∷ text) ≡ some (c, text)
unfolding next unescape from_hex
next_control c text h =
    let (high, low, e) = control_digits c h in
    rw (digit_lem (c / 16) high, digit_lem (c % 16) low, e) refl

next-escape : (c : ℕ) (text : List ℕ) → next (escape c ++ text) ≡ some (c, text)
unfolding next escape unescape from_hex
next-escape c text = ground (arith, next_control c text)

-- What two texts that read the same have in common.
some_parts :
    (c d : ℕ) (x y : List ℕ)
    → ◌≡◌ {A = Option (ℕ × List ℕ)} (some (c, x)) (some (d, y))
    → (c ≡ d) × (x ≡ y)
some_parts c d x y e = (cc, cc)

escape_prefix : (c d : ℕ) (x y : List ℕ) → escape c ++ x ≡ escape d ++ y → (c ≡ d) × (x ≡ y)
escape_prefix c d x y e = some_parts c d x y (sym (next-escape c x) ∙ ap next e ∙ next-escape d y)

next_end : (x : List ℕ) → next (34 ∷ x) ≡ none
unfolding next
next_end x = refl

escape_end : (c : ℕ) (x y : List ℕ) → ¬ (escape c ++ x ≡ 34 ∷ y)
escape_end c x y e =
    let read : ◌≡◌ {A = Option (ℕ × List ℕ)} (some (c, x)) none =
      sym (next-escape c x) ∙ ap next e ∙ next_end y in
    absurd cc

escape_all_prefix :
    (s t x y : List ℕ) → escape_all s ++ (34 ∷ x) ≡ escape_all t ++ (34 ∷ y) → (s ≡ t) × (x ≡ y)
unfolding escape_all
escape_all_prefix [] [] x y e = (refl, cc)
escape_all_prefix [] (d ∷ t) x y e = absurd (
    escape_end d (escape_all t ++ (34 ∷ y)) x
      (sym (append_assoc (escape d) (escape_all t) (34 ∷ y)) ∙ sym e))
escape_all_prefix (c ∷ s) [] x y e = absurd (
    escape_end c (escape_all s ++ (34 ∷ x)) y
      (sym (append_assoc (escape c) (escape_all s) (34 ∷ x)) ∙ e))
escape_all_prefix (c ∷ s) (d ∷ t) x y e =
    let (h, r) = escape_prefix c d (escape_all s ++ (34 ∷ x)) (escape_all t ++ (34 ∷ y)) (
      sym (append_assoc (escape c) (escape_all s) (34 ∷ x))
      ∙ e
      ∙ append_assoc (escape d) (escape_all t) (34 ∷ y)) in
    let (k, l) = escape_all_prefix s t x y r in (cc, l)

cons_parts : (a b : ℕ) (x y : List ℕ) → a ∷ x ≡ b ∷ y → (a ≡ b) × (x ≡ y)
cons_parts a b x y e = (cc, cc)

quote-append : (s x : List ℕ) → quote s ++ x ≡ 34 ∷ (escape_all s ++ (34 ∷ x))
unfolding quote
quote-append s x = ap (λ r. 34 ∷ r) (append_assoc (escape_all s) (34 ∷ []) x)

quote_prefix : (s t x y : List ℕ) → quote s ++ x ≡ quote t ++ y → (s ≡ t) × (x ≡ y)
quote_prefix s t x y e =
    escape_all_prefix s t x y
      (cons_parts 34 34 (escape_all s ++ (34 ∷ x)) (escape_all t ++ (34 ∷ y))
        (sym (quote-append s x) ∙ e ∙ quote-append t y)).1

items_prefix :
    (c d : List ℕ) (s t : List (List ℕ)) (x y : List ℕ)
    → (list_rest s ++ (93 ∷ x) ≡ list_rest t ++ (93 ∷ y) → (s ≡ t) × (x ≡ y))
    → (quote c ++ list_rest s) ++ (93 ∷ x) ≡ (quote d ++ list_rest t) ++ (93 ∷ y)
    → (c ∷ s ≡ d ∷ t) × (x ≡ y)
items_prefix c d s t x y h e =
    let (k, r) = quote_prefix c d (list_rest s ++ (93 ∷ x)) (list_rest t ++ (93 ∷ y)) (
      sym (append_assoc (quote c) (list_rest s) (93 ∷ x))
      ∙ e
      ∙ append_assoc (quote d) (list_rest t) (93 ∷ y)) in
    let (l, m) = h r in (cc, m)

list_rest_prefix :
    (s t : List (List ℕ)) (x y : List ℕ)
    → list_rest s ++ (93 ∷ x) ≡ list_rest t ++ (93 ∷ y)
    → (s ≡ t) × (x ≡ y)
unfolding list_rest
list_rest_prefix [] [] x y e = (refl, (cons_parts 93 93 x y e).1)
list_rest_prefix [] (d ∷ t) x y e = absurd (omega (arith, (cons_parts _ _ _ _ e).0))
list_rest_prefix (c ∷ s) [] x y e = absurd (omega (arith, (cons_parts _ _ _ _ e).0))
list_rest_prefix (c ∷ s) (d ∷ t) x y e =
    let e' = (cons_parts _ _ _ _ (cons_parts _ _ _ _ e).1).1 in
    items_prefix c d s t x y (list_rest_prefix s t x y) e'

list_items_prefix :
    (s t : List (List ℕ)) (x y : List ℕ)
    → list_items s ++ (93 ∷ x) ≡ list_items t ++ (93 ∷ y)
    → (s ≡ t) × (x ≡ y)
unfolding list_items quote
list_items_prefix [] [] x y e = (refl, (cons_parts 93 93 x y e).1)
list_items_prefix [] (d ∷ t) x y e = absurd (omega (arith, (cons_parts _ _ _ _ e).0))
list_items_prefix (c ∷ s) [] x y e = absurd (omega (arith, (cons_parts _ _ _ _ e).0))
list_items_prefix (c ∷ s) (d ∷ t) x y e = items_prefix c d s t x y (list_rest_prefix s t x y) e

list-append : (s : List (List ℕ)) (x : List ℕ) → list s ++ x ≡ 91 ∷ (list_items s ++ (93 ∷ x))
unfolding list
list-append s x = ap (λ r. 91 ∷ r) (append_assoc (list_items s) (93 ∷ []) x)

-- Whatever texts of bytes the values are, and whatever follows: two dumped arrays of strings, each
-- with what follows, are the same text exactly if the values are the same, one by one, and what
-- follows is the same.
pub list-append_iff :
    (s t : List (List ℕ)) (x y : List ℕ) → (list s ++ x ≡ list t ++ y) ↔ ((s ≡ t) × (x ≡ y))
list-append_iff s t x y = (
  λ e.
      list_items_prefix s t x y
        (cons_parts 91 91 (list_items s ++ (93 ∷ x)) (list_items t ++ (93 ∷ y))
          (sym (list-append s x) ∙ e ∙ list-append t y)).1,
  λ (k, l). cc,
)
