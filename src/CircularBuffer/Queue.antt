-- ===== src/CircularBuffer/Queue.antt =====
-- What a circular buffer promises: the last `capacity` elements pushed, oldest first.
use easy_navigation.Common.{
  ℕ, Option, none, some, List, [], ◌∷◌, ◌++◌, length, tail, ltb, if◌then◌else◌,
}

module _ {ℓ} {A : Type ℓ} where
  -- A push into a full queue drops the oldest element.
  unfoldable pub push : ℕ → A → List A → List A
  push capacity x q = (if ltb (length q) capacity then q else tail q) ++ x ∷ []

  unfoldable pub pop : List A → Option A × List A
  pop [] = (none, [])
  pop (x ∷ q) = (some x, q)

  unfoldable pub latest : List A → Option A
  latest [] = none
  latest (x ∷ []) = some x
  latest (x ∷ y ∷ q) = latest (y ∷ q)
