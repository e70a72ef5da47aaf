-- ===== src/Dijkstra/Printed.antt =====
-- What dijkstra.c prints, where no pointer to an edge's data looks like a distance.
use basic_jqr.Base.{
  ℕ, zero, suc, ◌+◌, ◌^◌, ◌≤◌, ◌<◌, ◌≡◌, ◌≢◌, refl, ◌∙◌, true, false, Option, none, some, List, [],
  ◌∷◌, arith, length, get_elem?, get_elem?-set_ne, set, replicate, All, ltb, ◌==◌, ok, out_of_fuel,
  ok_of_Returns, ◌>>=◌,
}
use basic_jqr.PQueue.{create_pqueue}
use basic_jqr.PQueue.Enqueue.{create_pqueue-IsQueue}
use basic_jqr.Graph.{Graph}
use basic_jqr.Dijkstra.{
  MinHeapNode, Search, put_vertices, path_loop, print_path, search_loop, dijkstra,
}
use basic_jqr.Dijkstra.Blind.{
  first_table, print_arr-first_table, put_vertices-Fresh, IsHarmless, search_loop-same,
}

get_elem?-replicate : (n i v : ℕ) → i < n → get_elem? (replicate n v) i ≡ some v
get_elem?-replicate zero i v lt = absurd (omega arith)
get_elem?-replicate (suc n) zero v lt = refl
get_elem?-replicate (suc n) (suc i) v lt = get_elem?-replicate n i v (omega arith)

-- `par` as it is made.
abbrev parents : ℕ → ℕ → List ℕ
parents n src = set (replicate n 0) src src

parents_other : (n src v : ℕ) → v < n → src ≢ v → get_elem? (parents n src) v ≡ some 0
parents_other n src v lt ne =
    get_elem?-set_ne (replicate n 0) src v src ne ∙ get_elem?-replicate n v 0 lt

parents_zero : (n v : ℕ) → v < n → get_elem? (parents n 0) v ≡ some 0
parents_zero (suc n) zero lt = refl
parents_zero n (suc v) lt = parents_other n 0 (suc v) lt (λ e. omega arith)
parents_zero zero v lt = absurd (omega arith)

-- With a start other than 0, the path goes to vertex 0 and stays there.
path_loop_endless :
    (fuel n src node : ℕ)
    → node < n
    → src ≢ node
    → src ≢ 0
    → path_loop fuel (parents n src) src node ≡ out_of_fuel
unfolding path_loop
path_loop_endless zero n src node lt ne ne' = refl
path_loop_endless (suc fuel) n src node lt ne ne' =
    let other : (0 == src) ≡ false = ground (arith, ne') in
    rw
      (
        parents_other n src node lt ne,
        other,
        path_loop_endless fuel n src 0 (omega (arith, lt)) ne' ne',
      )
      refl

module _ {E : Type 0} (address : Option E → ℕ) where
  -- The graph has a list for each of its vertices, two at least, and no edge's data is at an
  -- address that looks like a distance that the queue holds at first.
  pub record IsPlain (g : Graph E) : Type 0 where
    pub shape : length g.array ≡ g.size
    pub two : 2 ≤ g.size
    pub small : g.size < 2 ^ 30
    pub harmless : All (All (IsHarmless address)) g.array

  dijkstra_lem :
      (fuel : ℕ) (g : Graph E) (src dest : ℕ)
      → IsPlain g
      → src < g.size
      → dijkstra address fuel g src dest ≡ (
          print_path fuel (parents g.size src) src dest >>= λ path.
          ok (first_table g.array 0 src, path))
  unfolding dijkstra
  dijkstra_lem fuel g src dest p lt =
      let ((dist, pq), filled, (e, (es, q, fresh, few))) =
        ok_of_Returns
          (put_vertices g.array 0 src (replicate g.size none) (create_pqueue true true true g.size))
          (put_vertices-Fresh g.array 0 src (length g.array) (length g.array) []
            (replicate g.size none) (create_pqueue true true true g.size) []
            (create_pqueue-IsQueue MinHeapNode g.size p.two (omega (arith, p.small))) tt refl
            (rw (p.shape) refl) (omega arith) (omega arith) (omega (arith, p.shape, p.small))) in
      let start : Search = record { pq = pq; dist = dist; par = parents g.size src } in
      let (s, ended, (same, pars)) = ok_of_Returns (search_loop address (g.size + 1) g start) (
        search_loop-same address (g.size + 1) g pq dist (parents g.size src) es q fresh p.harmless
          (omega (arith, few, p.shape))) in
      let inside : ltb src g.size ≡ true = ground arith in
      let table = print_arr-first_table g.array src 0 [] s.dist refl (same ∙ e) in
      rw (filled, inside, ended, table, pars) refl

  -- `dijkstra` from vertex 0 of such a graph returns, if the loop of `print_path` gets a step, and
  -- prints for each vertex with an edge the distance that it starts with, 0 for the start and
  -- INT_MAX for the others, and the path that goes from `dest` straight to 0: no edge is looked at.
  pub dijkstra-first_table :
      (fuel : ℕ) (g : Graph E) (dest : ℕ)
      → IsPlain g
      → dest < g.size
      → 0 < fuel
      → dijkstra address fuel g 0 dest ≡ ok (first_table g.array 0 0, dest ∷ 0 ∷ [])
  unfolding print_path path_loop
  dijkstra-first_table zero g dest p lt some_fuel = absurd (omega arith)
  dijkstra-first_table (suc fuel) g dest p lt some_fuel =
      dijkstra_lem (suc fuel) g 0 dest p (omega (arith, p.two))
      ∙ rw (parents_zero g.size dest lt) refl

  -- From another vertex of such a graph, to one that is not the start, `print_path` goes round
  -- vertex 0 for ever, whatever the fuel.
  pub dijkstra-endless :
      (fuel : ℕ) (g : Graph E) (src dest : ℕ)
      → IsPlain g
      → src < g.size
      → dest < g.size
      → src ≢ 0
      → src ≢ dest
      → dijkstra address fuel g src dest ≡ out_of_fuel
  unfolding print_path
  dijkstra-endless fuel g src dest p lt lt' ne ne' =
      dijkstra_lem fuel g src dest p lt
      ∙ rw (path_loop_endless fuel g.size src dest lt' ne' ne) refl
