-- ===== src/PQueue/Tests.antt =====
-- Runs of the priority queue on numbers in their usual order.
use mathlib.Core.List.{Perm}
use basic_jqr.Base.{ℕ, ◌≡◌, refl, true, none, some, List, [], ◌∷◌, arith, ok, Returns, ◌>>=◌}
use basic_jqr.Avl.BySize.{by_size, by_size-IsOrder}
use basic_jqr.PQueue.{PQueue, create_pqueue, enqueue, find_data, destroy_pqueue}
use basic_jqr.PQueue.Order.{IsQueue, QueueOf, place}
use basic_jqr.PQueue.Enqueue.{enqueue-IsQueue}
use basic_jqr.PQueue.Drain.{somes, IsDescending, fill, drain, drain-fill}

-- Two numbers in three slots: the next one makes the array longer.
abbrev two : PQueue ℕ
two = record { size = 2; max_size = 3; queue = some 4 ∷ some 7 ∷ none ∷ [] }

two-IsQueue : IsQueue two (7 ∷ 4 ∷ [])
two-IsQueue = record {
  size = refl;
  rest = none ∷ [];
  queue = refl;
  whole = refl;
  spare = omega arith;
  two = omega arith;
  small = omega arith;
}

run_enqueue :
    enqueue by_size (some two) (some 5) true
    ≡ ok (
      some (record {
        size = 3;
        max_size = 6;
        queue = some 4 ∷ some 5 ∷ some 7 ∷ none ∷ none ∷ none ∷ [];
      }),
      true,
    )
unfolding enqueue
run_enqueue = refl

run_find : find_data by_size (some two) (some 4) ≡ ok true
unfolding find_data
run_find = refl

run_destroy : destroy_pqueue (some two) true ≡ ok (some 4 ∷ some 7 ∷ [], true)
unfolding destroy_pqueue
run_destroy = refl

enqueue-IsQueue_example :
    Returns
      (λ (pq', added). QueueOf (place by_size 5 (7 ∷ 4 ∷ [])) pq' × (added ≡ true))
      (enqueue by_size (some two) (some 5) true)
enqueue-IsQueue_example = enqueue-IsQueue by_size two 5 (7 ∷ 4 ∷ []) two-IsQueue (omega arith)

drain-fill_example :
    Returns
      (λ (tops, pq).
        (es : List ℕ) × (tops ≡ somes es)
        × Perm es (3 ∷ 9 ∷ 5 ∷ [])
        × IsDescending by_size es
        × QueueOf [] pq)
      (fill by_size (3 ∷ 9 ∷ 5 ∷ []) (create_pqueue true true true 2) >>= drain 3)
drain-fill_example =
    drain-fill by_size by_size-IsOrder 2 (3 ∷ 9 ∷ 5 ∷ []) (omega arith) (omega arith) (omega arith)
