-- ===== src/CircularBuffer/Invariant.antt =====
-- The representation invariant: the storage is there, the indices are in range, and the head is
-- `size` places after the tail.
use easy_navigation.Common.{
  ℕ, ◌+◌, ◌-◌, ◌%◌, ◌≤◌, ◌<◌, ◌≡◌, arith, length, length-set, length-replicate,
}
use easy_navigation.CircularBuffer.{CircularBuffer, new, push, pop, clear, advance_head}
use easy_navigation.CircularBuffer.Wrap.{wrap-cases}

pub record IsValid {ℓ} {A : Type ℓ} (b : CircularBuffer A) : Type 0 where
  pub storage : length b.buffer ≡ b.capacity
  pub tail_in : b.tail < b.capacity
  pub size_in : b.size ≤ b.capacity
  pub head_at : b.head ≡ (b.tail + b.size) % b.capacity

module _ {ℓ} {A : Type ℓ} where
  pub new-IsValid : (fill : A) (capacity : ℕ) → 0 < capacity → IsValid (new fill capacity)
  unfolding new
  new-IsValid fill capacity h = record {
    storage = length-replicate capacity fill;
    tail_in = h;
    size_in = omega arith;
    head_at = omega arith;
  }

  pub push-IsValid : (x : A) (b : CircularBuffer A) → IsValid b → IsValid (push x b)
  unfolding push advance_head
  push-IsValid x b v = ground (
    arith,
    length-set b.buffer b.head x,
    wrap-cases (b.tail + b.size) b.capacity,
    wrap-cases (b.head + 1) b.capacity,
    wrap-cases (b.tail + 1) b.capacity,
    wrap-cases (b.tail + (b.size + 1)) b.capacity,
    wrap-cases ((b.tail + 1) % b.capacity + b.size) b.capacity,
  )

  pub pop-IsValid : (fill : A) (b : CircularBuffer A) → IsValid b → IsValid (pop fill b).1
  unfolding pop
  pop-IsValid fill b v = ground (
    arith,
    wrap-cases (b.tail + b.size) b.capacity,
    wrap-cases (b.tail + 1) b.capacity,
    wrap-cases ((b.tail + 1) % b.capacity + (b.size - 1)) b.capacity,
  )

  pub clear-IsValid : (b : CircularBuffer A) → IsValid b → IsValid (clear b)
  unfolding clear
  clear-IsValid b v = ground arith
