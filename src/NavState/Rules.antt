-- ===== src/NavState/Rules.antt =====
-- Rules for code that may throw: it returns, and a postcondition holds of its value and its state.
use easy_navigation.Common.{◌≡◌, refl, sym, subst, Bool, true, false}
use easy_navigation.NavState.{Outcome, ok, Exec, bind_outcome, branch}

pub data Returns {S A : Type 0} (Q : A → S → Type 0) (r : Outcome A × S) : Type 0 where
  returns : (a : A) → r.0 ≡ ok a → Q a r.1 → Returns Q r

pub bind_rule :
    {S A B : Type 0} (Q : A → S → Type 0) {R : B → S → Type 0} {r : Outcome A × S}
    {f : A → Exec S B}
    → Returns Q r
    → ((a : A) (s : S) → Q a s → Returns R (f a s))
    → Returns R (bind_outcome r f)
bind_rule Q {R = R} {r = r} {f = f} (returns a e q) h =
    subst (λ o. Returns R (bind_outcome (o, r.1) f)) (sym e) (h a r.1 q)

-- A conditional step.
pub branch_rule :
    {S A : Type 0} {Q : A → S → Type 0} (b : Bool) (m n : Exec S A) {s : S}
    → (b ≡ true → Returns Q (m s))
    → (b ≡ false → Returns Q (n s))
    → Returns Q (branch b m n s)
unfolding branch
branch_rule true m n hm hn = hm refl
branch_rule false m n hm hn = hn refl

pub weaken_rule :
    {S A : Type 0} (Q : A → S → Type 0) {R : A → S → Type 0} {r : Outcome A × S}
    → Returns Q r
    → ((a : A) (s : S) → Q a s → R a s)
    → Returns R r
weaken_rule Q {r = r} (returns a e q) h = returns a e (h a r.1 q)
