-- ===== src/CircularBuffer/Refine.antt =====
-- A valid buffer behaves as the queue of the last elements pushed.
use easy_navigation.Common.{
  ℕ, zero, suc, ◌+◌, ◌-◌, ◌%◌, ◌≤◌, ◌<◌, ◌≡◌, refl, sym, subst, ap₂, arith, some, List, [], ◌∷◌,
  ◌++◌, length, length-append, get_or, set, get_or-set_self, get_or-set_ne, tail,
}
use native.Mathlib.Nat.{mod-eq_of_lt, add-zero}
use easy_navigation.CircularBuffer.{CircularBuffer, push, pop, latest, advance_head}
use easy_navigation.CircularBuffer.Queue
use easy_navigation.CircularBuffer.Wrap.{wrap-cases, place-ne, place_next}
use easy_navigation.CircularBuffer.Invariant.{IsValid}

module _ {A : Type 0} (fill : A) where
  -- The `n` elements from index `t` on, the newest added last.
  abbrev pub cells : List A → ℕ → ℕ → ℕ → List A
  cells buf c t zero = []
  cells buf c t (suc n) = cells buf c t n ++ get_or buf ((t + n) % c) fill ∷ []

  abbrev pub contents : CircularBuffer A → List A
  contents b = cells b.buffer b.capacity b.tail b.size

  pub length-cells : (buf : List A) (c t n : ℕ) → length (cells buf c t n) ≡ n
  length-cells buf c t zero = refl
  length-cells buf c t (suc n) = omega (
    arith,
    length-append (cells buf c t n) (get_or buf ((t + n) % c) fill ∷ []),
    length-cells buf c t n,
  )

  -- The oldest element stands at the tail.
  cells-front :
      (buf : List A) (c t n : ℕ)
      → t < c
      → cells buf c t (suc n) ≡ get_or buf t fill ∷ cells buf c ((t + 1) % c) n
  cells-front buf c t zero h = rw (add-zero, mod-eq_of_lt h)
  cells-front buf c t (suc n) h = rw (cells-front buf c t n h, place_next c t n)

  pred-suc : (n : ℕ) → suc n - 1 ≡ n
  pred-suc n = omega arith

  oldest :
      (buf : List A) (c t n : ℕ)
      → t < c
      → 0 < n
      → cells buf c t n ≡ get_or buf t fill ∷ cells buf c ((t + 1) % c) (n - 1)
  oldest buf c t zero h p = absurd (omega arith)
  oldest buf c t (suc n) h p = rw (pred-suc n) (cells-front buf c t n h)

  newest :
      (buf : List A) (c t n : ℕ)
      → 0 < n
      → cells buf c t n ≡ cells buf c t (n - 1) ++ get_or buf ((t + (n - 1)) % c) fill ∷ []
  newest buf c t zero p = absurd (omega arith)
  newest buf c t (suc n) p = rw (pred-suc n)

  -- A write past the elements leaves them.
  cells-set :
      (buf : List A) (c t n m : ℕ) (x : A)
      → t < c
      → n ≤ m
      → m < c
      → cells (set buf ((t + m) % c) x) c t n ≡ cells buf c t n
  cells-set buf c t zero m x h p q = refl
  cells-set buf c t (suc n) m x h p q =
      ap₂ (λ k y. k ++ y ∷ []) (cells-set buf c t n m x h (omega arith) q)
        (get_or-set_ne buf _ _ x fill (λ e. place-ne c t h (omega arith) q (sym e)))

  -- A write just past the elements adds one.
  cells-write :
      (buf : List A) (c t n : ℕ) (x : A)
      → length buf ≡ c
      → t < c
      → n < c
      → cells (set buf ((t + n) % c) x) c t (suc n) ≡ cells buf c t n ++ x ∷ []
  cells-write buf c t n x s h p =
      ap₂ (λ k y. k ++ y ∷ []) (cells-set buf c t n n x h (omega arith) p)
        (get_or-set_self buf ((t + n) % c) x fill (omega (arith, wrap-cases (t + n) c)))

  -- A write over the oldest of a whole turn's elements drops it and adds one.
  cells-overwrite :
      (buf : List A) (c t k : ℕ) (x : A)
      → length buf ≡ c
      → t < c
      → c ≡ suc k
      → cells (set buf t x) c ((t + 1) % c) (suc k) ≡ tail (cells buf c t (suc k)) ++ x ∷ []
  cells-overwrite buf c t k x s h e =
      subst
        (λ i. cells (set buf i x) c ((t + 1) % c) (suc k) ≡ tail (cells buf c t (suc k)) ++ x ∷ [])
        turn
        (rw (cells-front buf c t k h)
          (cells-write buf c ((t + 1) % c) k x s (omega arith) (omega arith)))
    where
      turn : ((t + 1) % c + k) % c ≡ t
      turn = ground (arith, wrap-cases (t + 1) c, wrap-cases ((t + 1) % c + k) c)

  push_free :
      (x : A) (b : CircularBuffer A)
      → IsValid b
      → b.size < b.capacity
      → contents (push x b) ≡ contents b ++ x ∷ []
  unfolding push advance_head
  push_free x b v p =
      ground (arith, cells-write b.buffer b.capacity b.tail b.size x v.storage v.tail_in p)

  -- A full buffer's head is its tail: the oldest element is overwritten.
  push_full :
      (x : A) (b : CircularBuffer A)
      → IsValid b
      → b.size ≡ b.capacity
      → contents (push x b) ≡ tail (contents b) ++ x ∷ []
  unfolding push advance_head
  push_full x b v p = ground (
    arith,
    wrap-cases (b.tail + b.size) b.capacity,
    cells-overwrite b.buffer b.capacity b.tail (b.capacity - 1) x v.storage v.tail_in,
  )

  pub push_refines :
      (x : A) (b : CircularBuffer A)
      → IsValid b
      → contents (push x b) ≡ Queue.push b.capacity x (contents b)
  unfolding Queue.push
  push_refines x b v =
      ground
        (arith, length-cells b.buffer b.capacity b.tail b.size, push_free x b v, push_full x b v)

  pub pop_refines :
      (b : CircularBuffer A)
      → IsValid b
      → ((pop fill b).0 ≡ (Queue.pop (contents b)).0)
        × (contents (pop fill b).1 ≡ (Queue.pop (contents b)).1)
  unfolding pop Queue.pop
  pop_refines b v = ground (arith, oldest b.buffer b.capacity b.tail b.size v.tail_in)

  latest_last : (q : List A) (x : A) → Queue.latest (q ++ x ∷ []) ≡ some x
  unfolding Queue.latest
  latest_last [] x = refl
  latest_last (y ∷ []) x = refl
  latest_last (y ∷ z ∷ q) x = latest_last (z ∷ q) x

  pub latest_refines :
      (b : CircularBuffer A) → IsValid b → latest fill b ≡ Queue.latest (contents b)
  unfolding latest Queue.latest
  latest_refines b v = ground (
    arith,
    wrap-cases (b.tail + b.size) b.capacity,
    wrap-cases (b.head + b.capacity - 1) b.capacity,
    wrap-cases (b.tail + (b.size - 1)) b.capacity,
    newest b.buffer b.capacity b.tail b.size,
    latest_last (cells b.buffer b.capacity b.tail (b.size - 1))
        (get_or b.buffer ((b.tail + (b.size - 1)) % b.capacity) fill),
  )
