-- ===== src/Dijkstra.antt =====
-- data_structures/graph/dijkstra.c: shortest paths over the graph and the priority queue. An `int`
-- is kept as its 32 bits, and overflow is taken to wrap. `dist` comes from `malloc`: what was never
-- written is `none`, and to read it is a fault. What the calls for memory give is taken to be
-- there; the vertices are not negative.
pub mod Blind
pub mod Printed
mod Tests
use basic_jqr.Base.{
  ℕ, zero, suc, ◌+◌, ◌-◌, ◌*◌, ◌%◌, ◌^◌, Bool, true, false, ◌||◌, Option, none, some, List, [], ◌∷◌,
  length, get_elem?, set, replicate, ltb, leb, ◌==◌, if◌then◌else◌, Outcome, ok, fault, out_of_fuel,
  ◌>>=◌, deref, ℤ, pos, negsuc,
}
use basic_jqr.PQueue.{PQueue, to_int, create_pqueue, enqueue, dequeue, find_data}
use basic_jqr.Graph.{AdjListNode, Graph}

pub record MinHeapNode : Type 0 where
  pub v : ℕ
  pub dist : ℕ

-- `newMinHeapNode`, whose `malloc` succeeds.
abbrev pub new_min_heap_node : ℕ → ℕ → MinHeapNode
new_min_heap_node v dist = record { v = v; dist = dist }

abbrev pub int_max : ℕ
int_max = 2 ^ 31 - 1

-- The 32 bits of an `int`.
abbrev pub bits : ℤ → ℕ
bits (pos n) = n % 2 ^ 32
bits (negsuc n) = 2 ^ 32 - 1 - n % 2 ^ 32

-- `a < b` of two `int`s.
abbrev pub int_lt : ℤ → ℤ → Bool
int_lt (pos a) (pos b) = ltb a b
int_lt (pos a) (negsuc b) = false
int_lt (negsuc a) (pos b) = true
int_lt (negsuc a) (negsuc b) = ltb b a

unfoldable pub num_comp : MinHeapNode → MinHeapNode → ℤ
num_comp a b = to_int (a.dist + 2 ^ 32 - b.dist)

-- The loop of `decrease`, from slot `i` on.
unfoldable pub decrease_from :
    List (Option MinHeapNode) → ℕ → ℕ → ℕ → ℕ → Outcome (List (Option MinHeapNode))
decrease_from queue dest new_dist i zero = ok queue
decrease_from queue dest new_dist i (suc n) = deref (get_elem? queue i) >>= λ slot.
    deref slot >>= λ tmp.
    decrease_from
      (if tmp.v == dest then set queue i (some (record tmp { dist = new_dist })) else queue) dest
      new_dist (i + 1) n

unfoldable pub decrease :
    Option (PQueue MinHeapNode) → ℕ → ℕ → Outcome (Option (PQueue MinHeapNode))
unfolding decrease_from
decrease none dest new_dist = ok none
decrease (some pq) dest new_dist =
    if leb pq.size dest || (pq.size == 0)
    then ok (some pq)
    else (decrease_from pq.queue dest new_dist 0 pq.size >>= λ queue.
        ok (some (record pq { queue = queue })))

-- What `dijkstra` keeps.
pub record Search : Type 0 where
  pub pq : Option (PQueue MinHeapNode)
  pub dist : List (Option ℕ)
  pub par : List ℕ

module _ {E : Type 0} where
  -- The loop that puts each vertex with an edge into the queue, over the lists from vertex `v` on.
  unfoldable pub put_vertices :
      List (List (AdjListNode E))
      → ℕ
      → ℕ
      → List (Option ℕ)
      → Option (PQueue MinHeapNode)
      → Outcome (List (Option ℕ) × Option (PQueue MinHeapNode))
  put_vertices [] v src dist pq = ok (dist, pq)
  put_vertices ([] ∷ ls) v src dist pq = put_vertices ls (v + 1) src dist pq
  put_vertices ((e ∷ l) ∷ ls) v src dist pq =
      let d = (if v == src then 0 else int_max) in
      enqueue num_comp pq (some (new_min_heap_node v d)) true >>= λ (pq', added).
      put_vertices ls (v + 1) src (set dist v (some d)) pq'

  -- `printArr`: the vertices with an edge and their distances, from vertex `i` on.
  unfoldable pub print_arr :
      List (List (AdjListNode E)) → ℕ → List (Option ℕ) → Outcome (List (ℕ × ℕ))
  print_arr [] i dist = ok []
  print_arr ([] ∷ ls) i dist = print_arr ls (i + 1) dist
  print_arr ((e ∷ l) ∷ ls) i dist = deref (get_elem? dist i) >>= λ known.
      deref known >>= λ d. print_arr ls (i + 1) dist >>= λ others. ok ((i, d) ∷ others)

-- The loop of `print_path`: what is printed behind `dest`.
unfoldable pub path_loop : ℕ → List ℕ → ℕ → ℕ → Outcome (List ℕ)
path_loop zero path src node = out_of_fuel
path_loop (suc fuel) path src node = deref (get_elem? path node) >>= λ p.
    let rest = path_loop fuel path src p in
    if p == src then ok (p ∷ []) else (rest >>= λ others. ok (p ∷ others))

unfoldable pub print_path : ℕ → List ℕ → ℕ → ℕ → Outcome (List ℕ)
unfolding path_loop
print_path fuel path src dest = path_loop fuel path src dest >>= λ others. ok (dest ∷ others)

-- `address` gives the lower 32 bits of a pointer.
module _ {E : Type 0} (address : Option E → ℕ) where
  -- What `num_comp` reads in an edge: its `dist` is where an edge has the lower half of its `data`.
  abbrev pub as_heap_node : AdjListNode E → MinHeapNode
  as_heap_node e = record {
    v = bits e.dest + 2 ^ 32 * bits e.weight;
    dist = address e.datum % 2 ^ 32;
  }

  -- The test of the distances and the update, for an edge to vertex `v`.
  unfoldable pub relax : ℕ → ℕ → ℤ → Search → Outcome Search
  unfolding decrease
  relax u v weight s = deref (get_elem? s.dist u) >>= λ known. deref known >>= λ du.
      if du == int_max
      then ok s
      else (deref (get_elem? s.dist v) >>= λ known'. deref known' >>= λ dv.
          let sum = (bits weight + du) % 2 ^ 32 in
          if int_lt (to_int sum) (to_int dv)
          then (decrease s.pq v sum >>= λ pq.
              ok (record { pq = pq; dist = set s.dist v (some sum); par = set s.par v u }))
          else ok s)

  abbrev pub relax_to : ℕ → ℤ → ℤ → Search → Outcome Search
  relax_to u (pos v) weight s = relax u v weight s
  relax_to u (negsuc v) weight s = fault

  -- The loop over the edges of vertex `u`.
  unfoldable pub crawl : List (AdjListNode E) → ℕ → Search → Outcome Search
  crawl [] u s = ok s
  crawl (e ∷ l) u s = find_data num_comp s.pq (some (as_heap_node e)) >>= λ found.
      (if found then relax_to u e.dest e.weight s else ok s) >>= λ s'. crawl l u s'

  -- The `while` loop.
  unfoldable pub search_loop : ℕ → Graph E → Search → Outcome Search
  search_loop zero g s = out_of_fuel
  search_loop (suc fuel) g s = deref s.pq >>= λ pq.
      if pq.size == 0
      then ok s
      else (dequeue (some pq) >>= λ (pq', top). deref top >>= λ node.
          deref (get_elem? g.array node.v) >>= λ l.
          crawl l node.v (record s { pq = pq' }) >>= λ s'. search_loop fuel g s')

  -- What is printed: the table of distances and the path. The `while` loop gets one step more than
  -- there are vertices; `fuel` is for the loop of `print_path`.
  unfoldable pub dijkstra : ℕ → Graph E → ℕ → ℕ → Outcome (List (ℕ × ℕ) × List ℕ)
  dijkstra fuel g src dest =
      put_vertices g.array 0 src (replicate g.size none) (create_pqueue true true true g.size)
      >>= λ (dist, pq).
          (if ltb src g.size then ok (set (replicate g.size 0) src src) else fault) >>= λ par.
          search_loop (g.size + 1) g (record { pq = pq; dist = dist; par = par }) >>= λ s.
          print_arr g.array 0 s.dist >>= λ table.
          print_path fuel s.par src dest >>= λ path. ok (table, path)
