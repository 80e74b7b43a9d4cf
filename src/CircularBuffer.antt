-- ===== src/CircularBuffer.antt =====
-- easynav_common CircularBuffer.hpp: a fixed-capacity buffer that overwrites its oldest element.
-- The mutex makes each call one step. `fill` is the default value that the vector is built with;
-- `%` by a capacity of 0 and an index out of range, undefined in the source, are ruled out by the
-- invariant. raw_slot(), which names members that no element has, is left out.
pub mod Wrap
pub mod Invariant
pub mod Queue
pub mod Refine
pub mod Calls
use easy_navigation.Common.{
  ℕ, ◌+◌, ◌-◌, ◌%◌, Bool, true, false, Option, none, some, List, replicate, get_or, set, ltb, ◌==◌,
  if◌then◌else◌,
}

pub record CircularBuffer {ℓ} (A : Type ℓ) : Type ℓ where
  pub buffer : List A
  pub capacity : ℕ
  pub head : ℕ
  pub tail : ℕ
  pub size : ℕ

module _ {ℓ} {A : Type ℓ} (fill : A) where
  unfoldable pub new : ℕ → CircularBuffer A
  new capacity = record {
    buffer = replicate capacity fill;
    capacity = capacity;
    head = 0;
    tail = 0;
    size = 0;
  }

  -- `pop(out)`: the element, if true is returned.
  unfoldable pub pop : CircularBuffer A → Option A × CircularBuffer A
  pop b = if b.size == 0 then (none, b) else (
    some (get_or b.buffer b.tail fill),
    record b { tail = (b.tail + 1) % b.capacity; size = b.size - 1 },
  )

  unfoldable pub latest : CircularBuffer A → Option A
  latest b =
      if b.size == 0
      then none
      else some (get_or b.buffer ((b.head + b.capacity - 1) % b.capacity) fill)

module _ {ℓ} {A : Type ℓ} where
  unfoldable pub is_empty : CircularBuffer A → Bool
  is_empty b = b.size == 0

  unfoldable pub is_full : CircularBuffer A → Bool
  is_full b = b.size == b.capacity

  unfoldable pub clear : CircularBuffer A → CircularBuffer A
  clear b = record b { head = 0; tail = 0; size = 0 }

  unfoldable pub advance_head : CircularBuffer A → CircularBuffer A
  advance_head b =
      let b' = record b { head = (b.head + 1) % b.capacity } in
      if ltb b.size b.capacity
      then record b' { size = b.size + 1 }
      else record b' { tail = (b.tail + 1) % b.capacity }

  unfoldable pub push : A → CircularBuffer A → CircularBuffer A
  unfolding advance_head
  push value b = advance_head (record b { buffer = set b.buffer b.head value })

  -- The copy constructor and the assignment: every member of the other buffer.
  unfoldable pub assign : CircularBuffer A → CircularBuffer A → CircularBuffer A
  assign other b = record b {
    capacity = other.capacity;
    buffer = other.buffer;
    head = other.head;
    tail = other.tail;
    size = other.size;
  }
