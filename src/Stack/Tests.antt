-- ===== src/Stack/Tests.antt =====
-- Runs of the stack.
use basic_jqr.Base.{
  ℕ, ◌≡◌, refl, none, some, [], ◌∷◌, arith, ok, Returns, ◌>>=◌, ◌==◌, if◌then◌else◌,
}
use basic_jqr.Heap.{cell, Heap}
use basic_jqr.Heap.Linked.{Cells}
use basic_jqr.Stack.{Stack, push, pop, find, pop_nth}
use basic_jqr.Stack.Nodes.{IsStack, StackOf, FreedIn, pop-push, pop_nth-IsStack}

abbrev nodes : Cells ℕ
nodes = (10, 5) ∷ (20, 9) ∷ (30, 7) ∷ []

abbrev three_heap : Heap ℕ
three_heap a =
    if a == 10
    then some (cell 5 (some 20))
    else (if a == 20
        then some (cell 9 (some 30))
        else (if a == 30 then some (cell 7 none) else none))

abbrev three : Stack ℕ
three = record { root = some 10; size = 3; heap = three_heap }

three-IsStack : IsStack three nodes
three-IsStack = record {
  size = refl;
  small = omega arith;
  root = refl;
  distinct = (((λ e. omega arith), ((λ e. omega arith), tt)), (((λ e. omega arith), tt), (tt, tt)));
  linked = (refl, (refl, (refl, tt)));
}

run_find : find (some three) 2 ≡ ok (some 9)
unfolding find
run_find = refl

pop-push_example :
    Returns
      (λ (s', top). IsStack s' nodes × (top ≡ some 4) × (s'.heap 40 ≡ none))
      (push three (some 4) (some 40) >>= λ (s', code). pop s')
pop-push_example =
    pop-push three nodes 4 40 three-IsStack
      ((λ e. omega arith), ((λ e. omega arith), ((λ e. omega arith), tt))) (omega arith)

pop_nth-IsStack_example :
    Returns
      (λ (s', d). StackOf ((10, 5) ∷ (30, 7) ∷ []) s' × FreedIn 20 s' × (d ≡ some 9))
      (pop_nth (some three) 2)
pop_nth-IsStack_example = pop_nth-IsStack three [] ((30, 7) ∷ []) (10, 5) (20, 9) three-IsStack
