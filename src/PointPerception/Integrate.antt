-- ===== src/PointPerception/Integrate.antt =====
-- What integrating the pending cloud puts into the perception.
use easy_navigation.Common.{
  ℕ, zero, suc, ◌+◌, ◌≤◌, ◌<◌, ◌≡◌, ◌≢◌, refl, sym, ap, subst, ◌∙◌, arith, true, false, none, some,
  List, [], ◌∷◌, ◌++◌, tail, ltb, filter, if◌then◌else◌, length, length-append, append-nil,
  append_assoc, Bool-cases, inl, inr, Option-cases,
}
use mathlib.Core.List.{nil≢cons}
use easy_navigation.CircularBuffer.{CircularBuffer, push, pop, clear}
use easy_navigation.CircularBuffer.Calls.{capacity-push, capacity-pop}
use easy_navigation.CircularBuffer.Queue
use easy_navigation.CircularBuffer.Invariant.{IsValid, push-IsValid, pop-IsValid, clear-IsValid}
use easy_navigation.CircularBuffer.Refine.{contents, cells, length-cells, push_refines, pop_refines}
use easy_navigation.PointPerception.{
  Item, no_item, PointPerception, Transforms, take_pending, pop_all, newest, push_all, has_tf,
  prefer, kept, adopt, integrate_pending_perceptions,
}
use easy_navigation.PointPerception.Items.{IsChosen, remaining, choice_lem, length-filter-le}

pop_some : (n : ℕ) (b : CircularBuffer Item) → b.size ≡ suc n → (pop no_item b).0 ≢ none
unfolding pop
pop_some n b e h = ground (arith, e, h)

size-pop : (n : ℕ) (b : CircularBuffer Item) → b.size ≡ suc n → (pop no_item b).1.size ≡ n
unfolding pop
size-pop n b e = ground (arith, e)

pop_all_step :
    (n : ℕ) (b : CircularBuffer Item) (q : List Item)
    → (pop no_item b).0 ≢ none
    → (pop no_item b).0 ≡ (Queue.pop q).0
    → (pop_all n (pop no_item b).1).0 ≡ (Queue.pop q).1
    → (pop_all (suc n) b).0 ≡ q
unfolding pop_all Queue.pop
pop_all_step n b [] s o r = absurd (s o)
pop_all_step n b (x ∷ q) s o r = rw (o, pop_all) (ap (◌∷◌ x) r)

-- The pops empty the buffer, oldest first.
pop_all_lem :
    (n : ℕ) (b : CircularBuffer Item)
    → IsValid b
    → b.size ≡ n
    → (pop_all n b).0 ≡ contents no_item b
pop_all_lem zero b v e = unfold pop_all in ap (cells no_item b.buffer b.capacity b.tail) (sym e)
pop_all_lem (suc n) b v e =
    let (o, q) = pop_refines no_item b v in
    pop_all_step n b (contents no_item b) (pop_some n b e) o
      (pop_all_lem n (pop no_item b).1 (pop-IsValid no_item b v) (size-pop n b e) ∙ q)

-- What the pops leave.
pop_all-IsValid :
    (n : ℕ) (b : CircularBuffer Item)
    → IsValid b
    → IsValid (pop_all n b).1 × ((pop_all n b).1.capacity ≡ b.capacity)
unfolding pop_all
pop_all-IsValid zero b v = (v, refl)
pop_all-IsValid (suc n) b v =
    let v' = pop-IsValid no_item b v in
    let (w, e) = pop_all-IsValid n (pop no_item b).1 v' in
    elim (Option-cases (pop no_item b).0) [
      | inl o ↦ rw (o, pop_all) (v', capacity-pop no_item b)
      | inr (item, o) ↦ rw (o, pop_all) (w, e ∙ capacity-pop no_item b)
    ]

push-append :
    (capacity : ℕ) (x : Item) (q : List Item)
    → length q < capacity
    → Queue.push capacity x q ≡ q ++ x ∷ []
unfolding Queue.push
push-append capacity x q h = ground (arith, h)

-- Items for which there is room are added behind the others.
push_all_lem :
    (items : List Item) (b : CircularBuffer Item)
    → IsValid b
    → length (contents no_item b) + length items ≤ b.capacity
    → contents no_item (push_all items b) ≡ contents no_item b ++ items
unfolding push_all
push_all_lem [] b v h = sym (append-nil (contents no_item b))
push_all_lem (x ∷ items) b v h =
    let q = contents no_item b in
    let added = push_refines no_item x b v ∙ push-append b.capacity x q (omega (arith, h)) in
    let room : length (contents no_item (push x b)) + length items ≤ (push x b).capacity =
      omega (arith, ap length added, length-append q (x ∷ []), capacity-push x b, h) in
    push_all_lem items (push x b) (push-IsValid x b v) room
    ∙ ap (λ r. r ++ items) added
    ∙ append_assoc q (x ∷ []) items

abbrev pub pending_item : PointPerception → Item
pending_item p = record {
  cloud = p.pending_cloud;
  frame = p.pending_frame;
  stamp = p.pending_stamp;
}

-- The perception shows an item, and keeps some.
abbrev pub Shows : Item → List Item → PointPerception → Type 0
Shows i items p =
    (p.cloud ≡ i.cloud)
    × (p.frame_id ≡ i.frame)
    × (p.stamp ≡ i.stamp)
    × (p.valid ≡ true)
    × (p.new_data ≡ true)
    × (contents no_item p.buffer ≡ items)

adopt-Shows :
    (i : Item) (items : List Item) (b : CircularBuffer Item) (p : PointPerception)
    → IsValid b
    → length items ≤ b.capacity
    → Shows i items (adopt (some i) items b p)
unfolding adopt
adopt-Shows i items b p v h =
    let room : length (contents no_item (clear b)) + length items ≤ (clear b).capacity =
      unfold clear in omega (arith, h) in
    (refl, refl, refl, refl, refl, push_all_lem items (clear b) (clear-IsValid b v) room)

-- The adoption of the choice among the items popped.
abbrev step : Transforms → List Item → CircularBuffer Item → PointPerception → PointPerception
step tf items b p =
    let valid = newest none (filter (has_tf tf) items) in
    adopt (prefer valid (newest none items)) (kept valid items) b p

remaining-le :
    (tf : Transforms) (i : Item) (items : List Item) → length (remaining tf i items) ≤ length items
remaining-le tf i items = elim (Bool-cases (has_tf tf i)) [
  | inl e ↦ rw e (length-filter-le _ items)
  | inr e ↦ rw e (omega arith)
]

abbrev Integrated : Transforms → List Item → PointPerception → Type 0
Integrated tf items p = (i : Item) × IsChosen tf items i × Shows i (remaining tf i items) p

step-Integrated :
    (tf : Transforms) (items : List Item) (b : CircularBuffer Item) (p : PointPerception)
    → items ≢ []
    → IsValid b
    → length items ≤ b.capacity
    → Integrated tf items (step tf items b p)
step-Integrated tf [] b p ne v h = absurd (ne refl)
step-Integrated tf (x ∷ items) b p ne v h =
    let all = x ∷ items in
    let (i, f, k, c) = choice_lem tf x items (filter (has_tf tf) all) refl in
    let chosen = remaining tf i all in
    (
      i,
      c,
      subst (λ o. Shows i chosen (adopt o (kept (newest none (filter (has_tf tf) all)) all) b p))
          (sym f)
          (subst (λ ks. Shows i chosen (adopt (some i) ks b p)) (sym k)
            (adopt-Shows i chosen b p v (omega (arith, h, remaining-le tf i all)))),
    )

queue_push_ne : (capacity : ℕ) (x : Item) (q : List Item) → Queue.push capacity x q ≢ []
unfolding Queue.push
queue_push_ne capacity x q = append_ne (if ltb (length q) capacity then q else tail q)
  where
    append_ne : (r : List Item) → r ++ x ∷ [] ≢ []
    append_ne [] e = nil≢cons (sym e)
    append_ne (y ∷ r) e = nil≢cons (sym e)

-- The perception whose pending item is in the buffer, and the rest of the code.
abbrev taken : PointPerception → PointPerception
taken p = record p {
  buffer = push (pending_item p) p.buffer;
  pending_cloud = [];
  pending_available = false;
}

if_taken : (p : PointPerception) → p.pending_available ≡ true → take_pending p ≡ taken p
unfolding take_pending
if_taken p h = elim (Bool-cases p.pending_available) [
  | inl e ↦ rw e refl
  | inr e ↦ absurd (ground (arith, h, e))
]

abbrev integrate_taken : Transforms → PointPerception → PointPerception
integrate_taken tf p = let (items, b) = pop_all p.buffer.size p.buffer in step tf items b p

-- With a valid buffer and a cloud pending, the items being those buffered and the pending one, of
-- which a full buffer has dropped the oldest: after integrating, the perception shows an item that
-- has a transform to the robot's frame if any item has one, no older than any other such item; if
-- none has, the newest item. It is valid and new, and the buffer keeps the items that are not older
-- than a shown one that has a transform, all items otherwise.
pub integrate_pending_perceptions-Integrated :
    (tf : Transforms) (p : PointPerception)
    → IsValid p.buffer
    → p.pending_available ≡ true
    → Integrated tf
        (Queue.push p.buffer.capacity (pending_item p) (contents no_item p.buffer))
        (integrate_pending_perceptions tf p)
unfolding integrate_pending_perceptions take_pending
integrate_pending_perceptions-Integrated tf p v h =
    let b = push (pending_item p) p.buffer in
    let v' = push-IsValid (pending_item p) p.buffer v in
    let (w, c) = pop_all-IsValid b.size b v' in
    let popped = pop_all_lem b.size b v' refl in
    let items = popped ∙ push_refines no_item (pending_item p) p.buffer v in
    let room : length (pop_all b.size b).0 ≤ (pop_all b.size b).1.capacity = omega (
      arith,
      ap length popped,
      length-cells no_item b.buffer b.capacity b.tail b.size,
      c,
      v'.size_in,
    ) in
    subst
      (λ q.
        Integrated tf (Queue.push p.buffer.capacity (pending_item p) (contents no_item p.buffer))
          (integrate_taken tf q))
      (sym (if_taken p h))
      (subst (λ xs. Integrated tf xs (integrate_taken tf (taken p))) items
        (step-Integrated tf (pop_all b.size b).0 (pop_all b.size b).1 (taken p)
          (λ e.
            queue_push_ne p.buffer.capacity (pending_item p) (contents no_item p.buffer)
              (sym items ∙ e))
          w room))
