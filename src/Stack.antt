-- ===== src/Stack.antt =====
-- data_structures/stack/stack.c: a stack as a chain of nodes. The stack's record and the heap of
-- its nodes are one state; `malloc` is an argument, the fresh address or `none` where it fails.
-- A loop up to a bound that wrapped below 0 ends at the NULL behind the last node.
pub mod Nodes
mod Tests
use basic_jqr.Base.{
  ℕ, zero, suc, Bool, true, false, Option, none, some, List, [], ◌∷◌, ltb, ◌==◌, if◌then◌else◌,
  Outcome, ok, fault, ◌>>=◌, deref, ℤ, pos, negsuc, u64_pred, u64_succ,
}
use basic_jqr.Heap.{Cell, cell, Heap, write, load, set_next, free, walk}

pub record Stack (E : Type 0) : Type 0 where
  pub root : Option ℕ
  pub size : ℕ
  pub heap : Heap E

module _ {E : Type 0} where
  -- `create_stack`, if its `malloc` succeeds.
  unfoldable pub create_stack : Bool → Heap E → Option (Stack E)
  create_stack false heap = none
  create_stack true heap = some (record { root = none; size = 0; heap = heap })

  unfoldable pub new_node : Heap E → Option E → Option ℕ → Option (ℕ × Heap E)
  new_node heap none place = none
  new_node heap (some d) none = none
  new_node heap (some d) (some a) = some (a, write heap a (some (cell d none)))

  unfoldable pub push : Stack E → Option E → Option ℕ → Outcome (Stack E × ℤ)
  unfolding new_node
  push s datum place = elim (new_node s.heap datum place) [
    | none ↦ ok (s, negsuc 0)
    | some (a, heap) ↦ set_next heap (some a) s.root >>= λ heap'.
        ok (record s { root = some a; size = u64_succ s.size; heap = heap' }, pos 0)
  ]

  unfoldable pub pop : Stack E → Outcome (Stack E × Option E)
  pop s =
      if s.size == 0
      then ok (s, none)
      else (load s.heap s.root >>= λ c. free s.heap s.root >>= λ heap.
          ok (record s { root = c.next; size = u64_pred s.size; heap = heap }, some c.datum))

  unfoldable pub peek : Option (Stack E) → Outcome (Option E)
  peek none = ok none
  peek (some s) = if s.size == 0 then ok none else (load s.heap s.root >>= λ c. ok (some c.datum))

  unfoldable pub find : Option (Stack E) → ℕ → Outcome (Option E)
  unfolding walk
  find none n = ok none
  find (some s) n =
      if s.size == 0
      then ok none
      else (if ltb s.size n
          then ok none
          else (walk s.heap s.root (u64_pred n) >>= λ p. load s.heap p >>= λ c. ok (some c.datum)))

  unfoldable pub pop_nth : Option (Stack E) → ℕ → Outcome (Option (Stack E) × Option E)
  unfolding walk
  pop_nth none n = ok (none, none)
  pop_nth (some s) n =
      if s.size == 0
      then ok (some s, none)
      else (if ltb s.size n
          then ok (some s, none)
          else (walk s.heap s.root (u64_pred (u64_pred n)) >>= λ p. load s.heap p >>= λ c.
              load s.heap c.next >>= λ t. set_next s.heap p t.next >>= λ heap.
              free heap c.next >>= λ heap'.
              ok (some (record s { size = u64_pred s.size; heap = heap' }), some t.datum)))

  -- What `free_data` gets in the loop of `destroy_stack`, and the heap that is left.
  unfoldable pub free_nodes : Heap E → ℕ → Option ℕ → Outcome (List E × Heap E)
  free_nodes heap zero n = ok ([], heap)
  free_nodes heap (suc i) n = load heap n >>= λ c. free heap n >>= λ heap'.
      free_nodes heap' i c.next >>= λ (freed, heap''). ok (c.datum ∷ freed, heap'')

  -- The last value says whether the stack itself was freed, too.
  unfoldable pub destroy_stack : Option (Stack E) → Heap E → Outcome (List E × Heap E × Bool)
  unfolding free_nodes
  destroy_stack none heap = ok ([], heap, false)
  destroy_stack (some s) heap =
      if s.size == 0
      then ok ([], s.heap, false)
      else (free_nodes s.heap s.size s.root >>= λ (freed, heap'). ok (freed, heap', true))
