-- ===== src/CircularBuffer/Wrap.antt =====
-- Indices that go round at the capacity.
use easy_navigation.Common.{
  ℕ, suc, ◌+◌, ◌-◌, ◌%◌, ◌≤◌, ◌<◌, ◌≡◌, ◌≢◌, ◌⊎◌, inl, inr, ap, ◌∙◌, arith,
}
use native.Mathlib.Nat.{mod-add-mod, mod-eq_of_lt, mod-eq-sub-mod}
use native.Mathlib.Decide.{dec_lt}

-- An index that has gone round at most once.
pub wrap-cases : (i c : ℕ) → i < c + c → ((i < c) × (i % c ≡ i)) ⊎ ((c ≤ i) × (i % c ≡ i - c))
wrap-cases i c h = elim (dec_lt i c) [
  | yes p ↦ inl (p, mod-eq_of_lt p)
  | no p ↦ inr (
    omega arith,
    mod-eq-sub-mod {n = i} {m = c} (omega arith) ∙ mod-eq_of_lt {n = i - c} {m = c} (omega arith),
  )
]

-- Two places less than a whole turn apart differ.
pub place-ne : (c t : ℕ) {i j : ℕ} → t < c → i < j → j < c → (t + i) % c ≢ (t + j) % c
place-ne c t {i} {j} h p q =
    ground (arith, wrap-cases (t + i) c (omega arith), wrap-cases (t + j) c (omega arith))

-- The next place's offsets are one less.
pub place_next : (c t n : ℕ) → (t + suc n) % c ≡ ((t + 1) % c + n) % c
place_next c t n = rw mod-add-mod (ap (λ k. k % c) (omega arith))
