-- ===== src/CircularBuffer/Calls.antt =====
-- Sequences of calls on a buffer, and on the queue that it stands for.
use easy_navigation.Common.{ℕ, ◌≡◌, refl, ◌<◌, Option, List, [], ◌∷◌, ap₂, ◌∙◌, arith}
use easy_navigation.CircularBuffer.{CircularBuffer, new, push, pop, latest, clear, advance_head}
use easy_navigation.CircularBuffer.Queue
use easy_navigation.CircularBuffer.Invariant.{
  IsValid, new-IsValid, push-IsValid, pop-IsValid, clear-IsValid,
}
use easy_navigation.CircularBuffer.Refine.{contents, push_refines, pop_refines, latest_refines}

pub data Call (A : Type 0) : Type 0 where
  pushing : A → Call A
  popping : Call A
  reading : Call A
  clearing : Call A

module _ {A : Type 0} where
  -- What the calls that return an element return.
  unfoldable pub run : A → List (Call A) → CircularBuffer A → List (Option A)
  run fill [] b = []
  run fill (pushing x ∷ calls) b = run fill calls (push x b)
  run fill (popping ∷ calls) b = (pop fill b).0 ∷ run fill calls (pop fill b).1
  run fill (reading ∷ calls) b = latest fill b ∷ run fill calls b
  run fill (clearing ∷ calls) b = run fill calls (clear b)

  unfoldable pub run_queue : ℕ → List (Call A) → List A → List (Option A)
  run_queue c [] q = []
  run_queue c (pushing x ∷ calls) q = run_queue c calls (Queue.push c x q)
  run_queue c (popping ∷ calls) q = (Queue.pop q).0 ∷ run_queue c calls (Queue.pop q).1
  run_queue c (reading ∷ calls) q = Queue.latest q ∷ run_queue c calls q
  run_queue c (clearing ∷ calls) q = run_queue c calls []

  pub capacity-push : (x : A) (b : CircularBuffer A) → (push x b).capacity ≡ b.capacity
  unfolding push advance_head
  capacity-push x b = ground arith

  pub capacity-pop : (fill : A) (b : CircularBuffer A) → (pop fill b).1.capacity ≡ b.capacity
  unfolding pop
  capacity-pop fill b = ground arith

  pub capacity-clear : (b : CircularBuffer A) → (clear b).capacity ≡ b.capacity
  unfolding clear
  capacity-clear b = refl

  clear_refines : (fill : A) (b : CircularBuffer A) → contents fill (clear b) ≡ []
  unfolding clear
  clear_refines fill b = refl

  -- A valid buffer answers every sequence of calls as the bounded queue of its contents does.
  pub run_refines :
      (fill : A) (calls : List (Call A)) (b : CircularBuffer A)
      → IsValid b
      → run fill calls b ≡ run_queue b.capacity calls (contents fill b)
  unfolding run run_queue
  run_refines fill [] b v = refl
  run_refines fill (pushing x ∷ calls) b v =
      run_refines fill calls (push x b) (push-IsValid x b v)
      ∙ ap₂ (λ c q. run_queue c calls q) (capacity-push x b) (push_refines fill x b v)
  run_refines fill (popping ∷ calls) b v =
      let (o, q) = pop_refines fill b v in
      ap₂ ◌∷◌ o (
        run_refines fill calls (pop fill b).1 (pop-IsValid fill b v)
        ∙ ap₂ (λ c q. run_queue c calls q) (capacity-pop fill b) q)
  run_refines fill (reading ∷ calls) b v =
      ap₂ ◌∷◌ (latest_refines fill b v) (run_refines fill calls b v)
  run_refines fill (clearing ∷ calls) b v =
      run_refines fill calls (clear b) (clear-IsValid b v)
      ∙ ap₂ (λ c q. run_queue c calls q) (capacity-clear b) (clear_refines fill b)

  -- A buffer built with a capacity that is not 0 answers every sequence of calls as the empty
  -- bounded queue does, which drops its oldest element on a push when it is full.
  new_refines :
      (fill : A) (capacity : ℕ) (calls : List (Call A))
      → 0 < capacity
      → run fill calls (new fill capacity) ≡ run_queue capacity calls []
  unfolding new
  new_refines fill capacity calls h =
      run_refines fill calls (new fill capacity) (new-IsValid fill capacity h)
