-- ===== src/Circle/Tests.antt =====
-- Runs of the ring on numbers in their usual order.
use basic_jqr.Base.{ℕ, ◌≡◌, refl, none, some, [], ◌∷◌, arith, ok, Returns, pos, ◌==◌, if◌then◌else◌}
use basic_jqr.Avl.BySize.{by_size, by_size-IsOrder}
use basic_jqr.Heap.{cell, Heap}
use basic_jqr.Heap.Linked.{Cells, Linked}
use basic_jqr.Circle.{insert_at, Circle, remove_back, sort_list, view_list}
use basic_jqr.Circle.Ring.{IsRing, RingOf}
use basic_jqr.Circle.SortList.{Sorted, sort_list-IsRing}
use basic_jqr.Circle.Inside.{insert_at-IsRing}
use basic_jqr.Circle.Broken.{remove_back_open}

-- Nodes at 10, 20 and 30.
abbrev three_heap : Heap ℕ
three_heap a =
    if a == 10
    then some (cell 5 (some 20))
    else (if a == 20
        then some (cell 9 (some 30))
        else (if a == 30 then some (cell 7 (some 10)) else none))

abbrev three : Circle ℕ
three = record { curr_size = 3; head = some 10; last = some 30; heap = three_heap }

abbrev nodes : Cells ℕ
nodes = (20, 9) ∷ (30, 7) ∷ []

three-IsRing : IsRing three ((10, 5) ∷ nodes)
three-IsRing = record {
  size = refl;
  small = omega arith;
  distinct = (((λ e. omega arith), ((λ e. omega arith), tt)), (((λ e. omega arith), tt), (tt, tt)));
  closed = (refl, refl, (refl, (refl, (refl, tt))));
}

run_view : view_list (some three) ≡ ok (5 ∷ 9 ∷ 7 ∷ [])
unfolding view_list
run_view = refl

sort_list-IsRing_example : Returns (Sorted by_size ((10, 5) ∷ nodes)) (sort_list by_size three)
sort_list-IsRing_example = sort_list-IsRing by_size three (10, 5) nodes by_size-IsOrder three-IsRing

remove_back_open_example :
    Returns
      (λ (list', node).
        (node ≡ some 30)
        × (list'.last ≡ node)
        × (list'.head ≡ some 10)
        × (list'.curr_size ≡ 2)
        × Linked list'.heap ((10, 5) ∷ nodes) none)
      (remove_back three)
remove_back_open_example = remove_back_open three (10, 5) nodes three-IsRing

insert_at-IsRing_example :
    Returns
      (λ (list', code). RingOf ((10, 5) ∷ (40, 1) ∷ (20, 9) ∷ (30, 7) ∷ []) list' × (code ≡ pos 0))
      (insert_at (some three) (some 1) 1 (some 40))
insert_at-IsRing_example =
    insert_at-IsRing three (10, 5) (20, 9) [] ((30, 7) ∷ []) 1 40 three-IsRing
      ((λ e. omega arith), ((λ e. omega arith), ((λ e. omega arith), tt))) (omega arith)
