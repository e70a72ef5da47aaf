-- ===== src/Circle.antt =====
-- data_structures/circle/circle_link.c: a ring of nodes. The list's record and the heap that its
-- nodes are in are one state, `Circle`; `malloc` is an argument, the fresh address or `none` where
-- it fails. A new node's `next` is not set before the code sets it: the model starts it as NULL,
-- and no operation reads it before. `sort_list` starts behind its test for a list and a function
-- that are there.
pub mod Ring
pub mod Merge
pub mod Sort
pub mod SortList
pub mod Inside
pub mod Broken
mod Tests
use basic_jqr.Base.{
  ℕ, zero, suc, ◌+◌, Bool, true, false, Option, none, some, List, [], ◌∷◌, ltb, ◌==◌, not,
  if◌then◌else◌, Outcome, ok, fault, out_of_fuel, ◌>>=◌, ℤ, pos, negsuc, is_neg, u64_pred, u64_succ,
}
use basic_jqr.Heap.{Cell, cell, Heap, write, load, set_next, free, walk}

pub record Circle (E : Type 0) : Type 0 where
  pub curr_size : ℕ
  pub head : Option ℕ
  pub last : Option ℕ
  pub heap : Heap E

module _ {E : Type 0} where
  -- `create_circle_list`, if its `malloc` succeeds.
  unfoldable pub create_circle_list : Bool → Heap E → Option (Circle E)
  create_circle_list false heap = none
  create_circle_list true heap =
      some (record { curr_size = 0; head = none; last = none; heap = heap })

  -- The first node of a ring.
  abbrev pub only : Circle E → E → ℕ → Circle E
  only list d a = record list {
    head = some a;
    last = some a;
    curr_size = u64_succ list.curr_size;
    heap = write list.heap a (some (cell d (some a)));
  }

  -- `insert_front` once the node is there.
  unfoldable pub push_front : Circle E → E → ℕ → Outcome (Circle E)
  push_front list d a = elim list.head [
    | none ↦ ok (only list d a)
    | some temp ↦
        set_next (write list.heap a (some (cell d (some temp)))) list.last (some a) >>= λ heap.
        ok (record list { head = some a; curr_size = u64_succ list.curr_size; heap = heap })
  ]

  -- `insert_back` once the node is there.
  unfoldable pub push_back : Circle E → E → ℕ → Outcome (Circle E)
  push_back list d a = elim list.head [
    | none ↦ ok (only list d a)
    | some head ↦ set_next (write list.heap a (some (cell d none))) list.last (some a) >>= λ heap.
        set_next heap (some a) (some head) >>= λ heap'.
        ok (record list { last = some a; curr_size = u64_succ list.curr_size; heap = heap' })
  ]

  -- `insert_at` of an index that is not 0, once the node is there: an index out of range is only
  -- reported.
  unfoldable pub push_at : Circle E → E → ℕ → ℕ → Outcome (Circle E)
  unfolding walk
  push_at list d index a =
      let heap = write list.heap a (some (cell d none)) in
      walk heap list.head (u64_pred index) >>= λ tmp. load heap tmp >>= λ c.
      set_next heap (some a) c.next >>= λ heap₁. set_next heap₁ tmp (some a) >>= λ heap₂.
      ok (record list { curr_size = u64_succ list.curr_size; heap = heap₂ })

  -- The guards of the three insertions: no list, no data, no memory.
  abbrev pub inserting :
      (Circle E → E → ℕ → Outcome (Circle E))
      → Option (Circle E)
      → Option E
      → Option ℕ
      → Outcome (Option (Circle E) × ℤ)
  inserting push none datum place = ok (none, negsuc 0)
  inserting push (some list) none place = ok (some list, negsuc 0)
  inserting push (some list) (some d) none = ok (some list, negsuc 0)
  inserting push (some list) (some d) (some a) = push list d a >>= λ list'. ok (some list', pos 0)

  unfoldable pub insert_front :
      Option (Circle E) → Option E → Option ℕ → Outcome (Option (Circle E) × ℤ)
  unfolding push_front
  insert_front = inserting push_front

  unfoldable pub insert_back :
      Option (Circle E) → Option E → Option ℕ → Outcome (Option (Circle E) × ℤ)
  unfolding push_back
  insert_back = inserting push_back

  -- `!index` is among the guards, so the branch for index 0 is never reached.
  unfoldable pub insert_at :
      Option (Circle E) → Option E → ℕ → Option ℕ → Outcome (Option (Circle E) × ℤ)
  unfolding push_at
  insert_at list datum index node =
      if index == 0
      then ok (list, negsuc 0)
      else inserting (λ l d a. push_at l d index a) list datum node

  -- What `print_node` gets in `show_front`, `show_back` and `show_at`, if it is called.
  abbrev pub shown : Heap E → Option ℕ → Outcome (Option E)
  shown heap p = load heap p >>= λ c. ok (some c.datum)

  unfoldable pub show_front : Option (Circle E) → Outcome (Option E)
  show_front none = ok none
  show_front (some list) = if list.curr_size == 0 then ok none else shown list.heap list.head

  unfoldable pub show_back : Option (Circle E) → Outcome (Option E)
  show_back none = ok none
  show_back (some list) = if list.curr_size == 0 then ok none else shown list.heap list.last

  unfoldable pub show_at : Option (Circle E) → ℕ → Outcome (Option E)
  unfolding walk
  show_at none index = ok none
  show_at (some list) index =
      if list.curr_size == 0
      then ok none
      else (if ltb list.curr_size index
          then ok none
          else (walk list.heap list.head index >>= λ n. shown list.heap n))

  -- The node that is removed is not freed: the caller gets its address.
  unfoldable pub remove_front : Circle E → Outcome (Circle E × Option ℕ)
  remove_front list =
      let tmp = list.head in
      load list.heap tmp >>= λ c. set_next list.heap list.last c.next >>= λ heap.
      set_next heap tmp none >>= λ heap'.
      ok (record list { head = c.next; curr_size = u64_pred list.curr_size; heap = heap' }, tmp)

  unfoldable pub remove_back : Circle E → Outcome (Circle E × Option ℕ)
  unfolding walk
  remove_back list =
      let tmp = list.last in
      walk list.heap list.head (u64_pred list.curr_size) >>= λ n.
      set_next list.heap n list.head >>= λ heap. set_next heap tmp none >>= λ heap'.
      ok (record list { last = n; curr_size = u64_pred list.curr_size; heap = heap' }, tmp)

  unfoldable pub remove_at : Circle E → ℕ → Outcome (Circle E × Option ℕ)
  unfolding walk
  remove_at list index = walk list.heap list.head (u64_pred index) >>= λ n.
      load list.heap n >>= λ c.
      let tmp = c.next in
      load list.heap tmp >>= λ d. set_next list.heap n d.next >>= λ heap.
      set_next heap tmp none >>= λ heap'.
      ok (record list { curr_size = u64_pred list.curr_size; heap = heap' }, tmp)

  -- What `print_node` gets in the loop of `view_list`.
  unfoldable pub view_loop : Heap E → ℕ → Option ℕ → Outcome (List E)
  view_loop heap zero n = ok []
  view_loop heap (suc i) n =
      load heap n >>= λ c. view_loop heap i c.next >>= λ printed. ok (c.datum ∷ printed)

  unfoldable pub view_list : Option (Circle E) → Outcome (List E)
  unfolding view_loop
  view_list none = ok []
  view_list (some list) =
      if list.curr_size == 0 then ok [] else view_loop list.heap list.curr_size list.head

  -- What `free_data` gets in the loop of `destroy_list`, and the heap that is left.
  unfoldable pub free_loop : Heap E → ℕ → Option ℕ → Outcome (List E × Heap E)
  free_loop heap zero n = ok ([], heap)
  free_loop heap (suc i) n = load heap n >>= λ c. free heap n >>= λ heap'.
      free_loop heap' i c.next >>= λ (freed, heap''). ok (c.datum ∷ freed, heap'')

  -- The second argument says whether there is a function to free the data.
  unfoldable pub destroy_list : Circle E → Bool → Outcome (List E × Heap E)
  unfolding free_loop
  destroy_list list false = ok ([], list.heap)
  destroy_list list true = free_loop list.heap list.curr_size list.head

  -- The `while` loop of `split_list`.
  unfoldable pub split_loop : ℕ → Heap E → Option ℕ → Option ℕ → Outcome (Option ℕ)
  split_loop zero heap slow fast = out_of_fuel
  split_loop (suc fuel) heap slow none = ok slow
  split_loop (suc fuel) heap slow (some f) = load heap (some f) >>= λ c. elim c.next [
    | none ↦ ok slow
    | some g ↦
        load heap slow >>= λ s. load heap (some g) >>= λ e. split_loop fuel heap s.next e.next
  ]

  -- The two halves, and the heap in which they are apart.
  unfoldable pub split_list : ℕ → Heap E → Option ℕ → Outcome (Option ℕ × Option ℕ × Heap E)
  unfolding split_loop
  split_list fuel heap source = load heap source >>= λ c.
      split_loop fuel heap source c.next >>= λ slow.
      load heap slow >>= λ s. set_next heap slow none >>= λ heap'. ok (source, s.next, heap')

module _ {E : Type 0} (comp : E → E → ℤ) where
  unfoldable pub sorted_merge : ℕ → Heap E → Option ℕ → Option ℕ → Outcome (Option ℕ × Heap E)
  sorted_merge zero heap a b = out_of_fuel
  sorted_merge (suc fuel) heap none b = ok (b, heap)
  sorted_merge (suc fuel) heap (some a) none = ok (some a, heap)
  sorted_merge (suc fuel) heap (some a) (some b) = load heap (some a) >>= λ x.
      load heap (some b) >>= λ y.
      if not (is_neg (comp x.datum y.datum))
      then (sorted_merge fuel heap x.next (some b) >>= λ (r, heap').
          set_next heap' (some a) r >>= λ heap''. ok (some a, heap''))
      else (sorted_merge fuel heap (some a) y.next >>= λ (r, heap').
          set_next heap' (some b) r >>= λ heap''. ok (some b, heap''))

  unfoldable pub merge_sort : ℕ → Heap E → Option ℕ → Outcome (Option ℕ × Heap E)
  unfolding split_list sorted_merge
  merge_sort zero heap head = out_of_fuel
  merge_sort (suc fuel) heap none = ok (none, heap)
  merge_sort (suc fuel) heap (some a) = load heap (some a) >>= λ c. elim c.next [
    | none ↦ ok (some a, heap)
    | some b ↦ split_list fuel heap (some a) >>= λ (front, back, heap₁).
        merge_sort fuel heap₁ front >>= λ (x, heap₂).
        merge_sort fuel heap₂ back >>= λ (y, heap₃). sorted_merge fuel heap₃ x y
  ]

  -- The loops of the sort get two steps more than there are nodes.
  unfoldable pub sort_list : Circle E → Outcome (Circle E)
  unfolding merge_sort walk
  sort_list list = set_next list.heap list.last none >>= λ heap.
      merge_sort (list.curr_size + 2) heap list.head >>= λ (head, heap₁).
      walk heap₁ head (u64_pred list.curr_size) >>= λ n.
      set_next heap₁ n head >>= λ heap₂. ok (record list { head = head; last = n; heap = heap₂ })
