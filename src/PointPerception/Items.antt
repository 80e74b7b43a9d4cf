-- ===== src/PointPerception/Items.antt =====
-- The choice among the items of the buffer.
use easy_navigation.Common.{
  ◌≤◌, ltb_ℤ, leb_ℤ, ◌≡◌, ◌⊎◌, refl, sym, ap, subst, ◌∙◌, arith, Bool, true, false, none, some,
  List, [], ◌∷◌, filter, if◌then◌else◌, length, Bool-cases, inl, inr,
}
use easy_navigation.PointPerception.{Item, Transforms, newest, has_tf, prefer, kept}

abbrev pub Holds : Item → List Item → Type 0
Holds i [] = ⊥
Holds i (j ∷ items) = (i ≡ j) ⊎ Holds i items

-- `i` is not newer than `j`.
abbrev pub NotNewer : Item → Item → Type 0
NotNewer i j = leb_ℤ i.stamp.nanoseconds j.stamp.nanoseconds ≡ true

not_newer : (i j k : Item) → NotNewer i j → NotNewer j k → NotNewer i k
not_newer i j k p q = ground arith

NotNewer-self : (i : Item) → NotNewer i i
NotNewer-self i = ground arith

-- The newest of `best` and the items.
abbrev IsNewest : Item → List Item → Item → Type 0
IsNewest best items r =
    ((r ≡ best) ⊎ Holds r items) × NotNewer best r × ((j : Item) → Holds j items → NotNewer j r)

or_later :
    (r best item : Item) (items : List Item)
    → (r ≡ best) ⊎ Holds r items
    → (r ≡ best) ⊎ Holds r (item ∷ items)
or_later r best item items (inl e) = inl e
or_later r best item items (inr h) = inr (inr h)

all_newer :
    (r item : Item) (items : List Item)
    → NotNewer item r
    → ((j : Item) → Holds j items → NotNewer j r)
    → (j : Item) → Holds j (item ∷ items)
    → NotNewer j r
all_newer r item items l n j (inl e) = subst (λ k. NotNewer k r) (sym e) l
all_newer r item items l n j (inr h) = n j h

pub newest_lem :
    (best : Item) (items : List Item)
    → (r : Item) × (newest (some best) items ≡ some r) × IsNewest best items r
unfolding newest
newest_lem best [] = (best, refl, (inl refl, NotNewer-self best, λ j h. absurd h))
newest_lem best (item ∷ items) =
    elim (Bool-cases (ltb_ℤ best.stamp.nanoseconds item.stamp.nanoseconds)) [
      | inl e ↦
          let (r, f, (m, l, n)) = newest_lem item items in
          rw e
            (r, f, (inr m, not_newer best item r (ground (arith, e)) l, all_newer r item items l n))
      | inr e ↦
          let (r, f, (m, l, n)) = newest_lem best items in
          rw e (
            r,
            f,
            (
              or_later r best item items m,
              l,
              all_newer r item items (not_newer item best r (ground (arith, e)) l) n,
            ),
          )
    ]

pub length-filter-le :
    (t : Item → Bool) (items : List Item) → length (filter t items) ≤ length items
length-filter-le t [] = omega arith
length-filter-le t (x ∷ items) = elim (Bool-cases (t x)) [
  | inl e ↦ rw e (omega (arith, length-filter-le t items))
  | inr e ↦ rw e (omega (arith, length-filter-le t items))
]

pub filter-Holds :
    (t : Item → Bool) (items : List Item) (j : Item)
    → Holds j (filter t items)
    → Holds j items × (t j ≡ true)
filter-Holds t (x ∷ items) j h =
    let cases = λ (b : Bool). Holds j (if b then x ∷ filter t items else filter t items) in
    elim (Bool-cases (t x)) [
      | inl e ↦ elim (subst cases e h) [
        | inl f ↦ (inl f, ap t f ∙ e)
        | inr k ↦ let (l, m) = filter-Holds t items j k in (inr l, m)
      ]
      | inr e ↦ let (l, m) = filter-Holds t items j (subst cases e h) in (inr l, m)
    ]
filter-Holds t [] j h = absurd h

pub Holds-filter :
    (t : Item → Bool) (items : List Item) (j : Item)
    → Holds j items
    → t j ≡ true
    → Holds j (filter t items)
Holds-filter t (x ∷ items) j (inl e) h = rw (ap t (sym e) ∙ h) (inl e)
Holds-filter t (x ∷ items) j (inr k) h = elim (Bool-cases (t x)) [
  | inl e ↦ rw e (inr (Holds-filter t items j k h))
  | inr e ↦ rw e (Holds-filter t items j k h)
]
Holds-filter t [] j h k = absurd h

newest_of :
    (x : Item) (items : List Item)
    → (i : Item) × (newest none (x ∷ items) ≡ some i)
      × (Holds i (x ∷ items) × ((j : Item) → Holds j (x ∷ items) → NotNewer j i))
unfolding newest
newest_of x items =
    let (r, f, (m, l, n)) = newest_lem x items in (r, f, (m, all_newer r x items l n))

-- The item to use: the newest with a transform, or the newest if none has one.
abbrev pub IsChosen : Transforms → List Item → Item → Type 0
IsChosen tf items i =
    Holds i items
    × (((has_tf tf i ≡ true) × ((j : Item) → Holds j items → has_tf tf j ≡ true → NotNewer j i))
        ⊎ (((j : Item) → Holds j items → has_tf tf j ≡ false)
            × ((j : Item) → Holds j items → NotNewer j i)))

-- The items that stay.
abbrev pub remaining : Transforms → Item → List Item → List Item
remaining tf i items =
    if has_tf tf i then filter (λ j. leb_ℤ i.stamp.nanoseconds j.stamp.nanoseconds) items else items

-- The choice of the code, from the items of which some have a transform.
abbrev pub Chooses : Transforms → List Item → List Item → Type 0
Chooses tf items valid =
    (i : Item) × (prefer (newest none valid) (newest none items) ≡ some i)
    × (kept (newest none valid) items ≡ remaining tf i items)
    × IsChosen tf items i

none_has :
    (tf : Transforms) (items : List Item)
    → filter (has_tf tf) items ≡ []
    → (j : Item) → Holds j items
    → has_tf tf j ≡ false
none_has tf items e j h = elim (Bool-cases (has_tf tf j)) [
  | inl t ↦ absurd (subst (Holds j) e (Holds-filter (has_tf tf) items j h t))
  | inr f ↦ f
]

pub choice_lem :
    (tf : Transforms) (x : Item) (items valid : List Item)
    → filter (has_tf tf) (x ∷ items) ≡ valid
    → Chooses tf (x ∷ items) valid
unfolding newest
choice_lem tf x items [] e =
    let (i, f, (h, n)) = newest_of x items in
    let no = none_has tf (x ∷ items) e in (i, f, rw (no i h) refl, (h, inr (no, n)))
choice_lem tf x items (y ∷ valid) e =
    let (i, f, (h, n)) = newest_of y valid in
    let (k, t) = filter-Holds (has_tf tf) (x ∷ items) i (subst (Holds i) (sym e) h) in
    (
      i,
      ap (λ o. prefer o (newest none (x ∷ items))) f,
      ap (λ o. kept o (x ∷ items)) f ∙ rw t refl,
      (k, inl (t, λ j l m. n j (subst (Holds j) e (Holds-filter (has_tf tf) (x ∷ items) j l m)))),
    )
